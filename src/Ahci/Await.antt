-- ===== src/Ahci/Await.antt =====
-- The waiting loops of kernel/io/ahci/ahci.cpp: they end on every controller, and they see a status
-- that comes in time.
use esz_os.Base.{
  ℕ, zero, suc, ◌+◌, ◌-◌, ◌<◌, ◌≤◌, ◌≡◌, ◌↔◌, inl, inr, ◌∙◌, ap, sym, subst, arith, Bool, true, not,
  if◌then◌else◌, Bool-cases, eq_or_ne,
}
use esz_os.Ahci.{timeout, await_from, await_task_finish}

-- The time that a waiting loop takes.
pub await_from_time :
    (left : ℕ) (ready : ℕ → Bool) (time : ℕ)
    → (time ≤ (await_from left ready time).1) × ((await_from left ready time).1 ≤ time + left)
unfolding await_from
await_from_time zero ready time = (omega arith, omega arith)
await_from_time (suc left) ready time =
    let (low, high) = await_from_time left ready (time + 1) in
    elim (Bool-cases (ready time)) [
      | inl now ↦
          subst (λ (r : Bool × ℕ). (time ≤ r.1) × (r.1 ≤ time + suc left))
            (sym (ap (λ b. if b then (true, time) else await_from left ready (time + 1)) now))
            (omega arith, omega arith)
      | inr later ↦
          subst (λ (r : Bool × ℕ). (time ≤ r.1) × (r.1 ≤ time + suc left))
            (sym (ap (λ b. if b then (true, time) else await_from left ready (time + 1)) later))
            (omega (arith, low), omega (arith, high))
    ]

await_from_comes :
    (left : ℕ) (ready : ℕ → Bool) (time k : ℕ)
    → k < left
    → ready (time + k) ≡ true
    → (await_from left ready time).0 ≡ true
unfolding await_from
await_from_comes zero ready time k lt there = absurd (omega (arith, lt))
await_from_comes (suc left) ready time k lt there = elim (Bool-cases (ready time)) [
  | inl now ↦
      ap (λ (b : Bool). (if b then (true, time) else await_from left ready (time + 1)).0) now
  | inr later ↦
      ap (λ (b : Bool). (if b then (true, time) else await_from left ready (time + 1)).0) later
      ∙ elim (eq_or_ne k 0) [
        | inl z ↦
            let same : time + k ≡ time = omega (arith, z) in
            let here : ready time ≡ true = ap ready (sym same) ∙ there in
            absurd (ground (arith, here, later))
        | inr ne ↦
            let same : time + k ≡ time + 1 + (k - 1) = omega (arith, ne) in
            await_from_comes left ready (time + 1) (k - 1) (omega (arith, lt, ne))
              (ap ready (sym same) ∙ there)
      ]
]

await_from_when :
    (left : ℕ) (ready : ℕ → Bool) (time : ℕ)
    → (await_from left ready time).0 ≡ true
    → (k : ℕ) × (k < left) × (ready (time + k) ≡ true)
unfolding await_from
await_from_when zero ready time done = absurd (ground (arith, done))
await_from_when (suc left) ready time done = elim (Bool-cases (ready time)) [
  | inl now ↦ let same : time + 0 ≡ time = omega arith in (0, omega arith, ap ready same ∙ now)
  | inr later ↦
      let next : (await_from left ready (time + 1)).0 ≡ true =
        sym (
          ap (λ (b : Bool). (if b then (true, time) else await_from left ready (time + 1)).0) later)
        ∙ done in
      let (k, lt, there) = await_from_when left ready (time + 1) next in
      let same : time + (k + 1) ≡ time + 1 + k = omega arith in
      (k + 1, omega (arith, lt), ap ready same ∙ there)
]

-- The status comes within the timeout.
abbrev pub ComesInTime : (ℕ → Bool) → ℕ → Type 0
ComesInTime ready time = (k : ℕ) × (k < timeout) × (ready (time + k) ≡ true)

-- Waiting for a command ends after at most 3000 rounds of the loop, on any controller; and the
-- answer is that it finished exactly if its bit is clear at one of the first 3000 polls.
pub await_task_finish_iff :
    (busy : ℕ → Bool) (time : ℕ)
    → ((await_task_finish busy time).1 ≤ time + 3000)
      × (((await_task_finish busy time).0 ≡ true) ↔ ComesInTime (λ t. not (busy t)) time)
unfolding await_task_finish
await_task_finish_iff busy time = (
  (await_from_time timeout (λ t. not (busy t)) time).1,
  (
    λ done. await_from_when timeout (λ t. not (busy t)) time done,
    λ comes.
        let (k, lt, there) = comes in await_from_comes timeout (λ t. not (busy t)) time k lt there,
  ),
)
