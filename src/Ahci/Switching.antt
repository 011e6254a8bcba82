-- ===== src/Ahci/Switching.antt =====
-- Starting and stopping a port: set_sata_port_status of kernel/io/ahci/ahci.cpp on any controller.
use esz_os.Base.{
  ℕ, zero, suc, ◌+◌, ◌-◌, ◌<◌, ◌≤◌, ◌≡◌, ◌↔◌, inl, inr, ◌∙◌, ap, sym, arith, Bool, true, false,
  ◌||◌, not, if◌then◌else◌, Bool-cases, eq_or_ne, by_if,
}
use esz_os.Ahci.{
  PortCommand, Monitor, timeout, await_from, same_bit, await_fis_receive_engine,
  await_command_list_engine, await_drive_ready, set_sata_port_status,
}
use esz_os.Ahci.Await.{await_from_time}

-- The status comes first at poll `k` from `time` on, within the timeout.
pub record ComesFirst (ready : ℕ → Bool) (time k : ℕ) : Type 0 where
  pub in_time : k < timeout
  pub there : ready (time + k) ≡ true
  pub not_before : (j : ℕ) → j < k → ready (time + j) ≡ false

first_among :
    (left : ℕ) (ready : ℕ → Bool) (time k : ℕ)
    → k < left
    → ready (time + k) ≡ true
    → ((j : ℕ) → j < k → ready (time + j) ≡ false)
    → await_from left ready time ≡ (true, time + k)
unfolding await_from
first_among zero ready time k lt there before = absurd (omega (arith, lt))
first_among (suc left) ready time zero lt there before =
    let same : time + 0 ≡ time = omega arith in
    ap (λ b. if b then (true, time) else await_from left ready (time + 1))
      (ap ready (sym same) ∙ there)
    ∙ ap (λ t. (true, t)) (sym same)
first_among (suc left) ready time (suc k) lt there before =
    let same : time + 0 ≡ time = omega arith in
    let shift : (j : ℕ) → time + suc j ≡ time + 1 + j = λ j. omega arith in
    ap (λ b. if b then (true, time) else await_from left ready (time + 1))
      (ap ready (sym same) ∙ before 0 (omega arith))
    ∙ first_among left ready (time + 1) k (omega (arith, lt)) (ap ready (sym (shift k)) ∙ there)
        (λ j less. ap ready (sym (shift j)) ∙ before (suc j) (omega (arith, less)))
    ∙ ap (λ t. (true, t)) (sym (shift k))

found_first :
    (left : ℕ) (ready : ℕ → Bool) (time : ℕ)
    → (await_from left ready time).0 ≡ true
    → (k : ℕ) × (k < left)
      × (ready (time + k) ≡ true)
      × ((j : ℕ) → j < k → ready (time + j) ≡ false)
unfolding await_from
found_first zero ready time done = absurd (ground (arith, done))
found_first (suc left) ready time done = elim (Bool-cases (ready time)) [
  | inl now ↦
      let same : time + 0 ≡ time = omega arith in
      (0, omega arith, ap ready same ∙ now, λ j lt. absurd (omega (arith, lt)))
  | inr later ↦
      let next : (await_from left ready (time + 1)).0 ≡ true =
        sym (
          ap (λ (b : Bool). (if b then (true, time) else await_from left ready (time + 1)).0) later)
        ∙ done in
      let (k, lt, there, before) = found_first left ready (time + 1) next in
      let same : time + suc k ≡ time + 1 + k = omega arith in
      (
        suc k,
        omega (arith, lt),
        ap ready same ∙ there,
        λ j less. elim (eq_or_ne j 0) [
          | inl z ↦ let here : time + j ≡ time = omega (arith, z) in ap ready here ∙ later
          | inr ne ↦
              let here : time + j ≡ time + 1 + (j - 1) = omega (arith, ne) in
              ap ready here ∙ before (j - 1) (omega (arith, less, ne))
        ],
      )
]

comes_first :
    (ready : ℕ → Bool) (time : ℕ)
    → (await_from timeout ready time).0 ≡ true
    → (k : ℕ) × ComesFirst ready time k
comes_first ready time done =
    let (k, lt, there, before) = found_first timeout ready time done in
    (k, record { in_time = lt; there = there; not_before = before })

first_comes :
    (ready : ℕ → Bool) (time k : ℕ)
    → ComesFirst ready time k
    → await_from timeout ready time ≡ (true, time + k)
first_comes ready time k first =
    first_among timeout ready time k (first.in_time) (first.there) (first.not_before)

-- What is waited for: the engines in a state, and a drive that is not busy.
abbrev pub receives : Monitor → PortCommand → Bool → ℕ → Bool
receives monitor cmd wanted t = if (monitor cmd t).fr then wanted else not wanted

abbrev pub runs : Monitor → PortCommand → Bool → ℕ → Bool
runs monitor cmd wanted t = if (monitor cmd t).cr then wanted else not wanted

abbrev pub is_ready : Monitor → PortCommand → ℕ → Bool
is_ready monitor cmd t = not ((monitor cmd t).bsy || not (monitor cmd t).drdy)

-- What happens at the port when it is started in time: the receive engine is switched on and comes
-- up, the drive gets ready, and only then the command engine is switched on and comes up.
pub record IsStarted (monitor : Monitor) (cmd : PortCommand) (time : ℕ) : Type 0 where
  pub k1 : ℕ
  pub k2 : ℕ
  pub k3 : ℕ
  pub up : ComesFirst (receives monitor (record cmd { fre = true }) true) time k1
  pub ready : ComesFirst (is_ready monitor (record cmd { fre = true })) (time + k1) k2
  pub started :
      ComesFirst (runs monitor (record cmd { fre = true; st = true }) true) (time + k1 + k2) k3

-- And when it is stopped: first the command engine, and then the receive engine.
pub record IsStopped (monitor : Monitor) (cmd : PortCommand) (time : ℕ) : Type 0 where
  pub k1 : ℕ
  pub k2 : ℕ
  pub down : ComesFirst (runs monitor (record cmd { st = false }) false) time k1
  pub quiet :
      ComesFirst (receives monitor (record cmd { fre = false; st = false }) false) (time + k1) k2

-- Three waits after each other, and two, with what is done between them.
module _ (f1 f2 f3 : ℕ → Bool) (a b : PortCommand) where
  wait3 : ℕ → Bool × (PortCommand × ℕ)
  wait3 t = let w3 = await_from timeout f3 t in (w3.0, (b, w3.1))

  after2 : Bool × ℕ → Bool × (PortCommand × ℕ)
  unfolding wait3
  after2 w2 = if not (w2.0) then (false, (a, w2.1)) else wait3 (w2.1)

  after1 : Bool × ℕ → Bool × (PortCommand × ℕ)
  unfolding after2
  after1 w1 = if not (w1.0) then (false, (a, w1.1)) else after2 (await_from timeout f2 (w1.1))

  three_waits : ℕ → Bool × (PortCommand × ℕ)
  unfolding after1
  three_waits time = after1 (await_from timeout f1 time)

  three_waits_time : (time : ℕ) → (three_waits time).1.1 ≤ time + 9000
  unfolding three_waits after1 after2 wait3
  three_waits_time time =
      let w1 = await_from timeout f1 time in
      let w2 = await_from timeout f2 (w1.1) in
      let b1 = await_from_time timeout f1 time in
      let b2 = await_from_time timeout f2 (w1.1) in
      let b3 = await_from_time timeout f3 (w2.1) in
      let P : Bool × (PortCommand × ℕ) → Type 0 = λ r. r.1.1 ≤ time + 9000 in
      by_if P (not (w1.0)) (false, (a, w1.1)) (after2 w2) (λ _. omega (arith, b1))
        λ _.
          by_if P (not (w2.0)) (false, (a, w2.1)) (wait3 (w2.1)) (λ _. omega (arith, b1, b2))
            (λ _. omega (arith, b1, b2, b3))

  three_waits_iff :
      (time : ℕ)
      → ((three_waits time).0 ≡ true) ↔ (
          (k1 : ℕ) × (k2 : ℕ) × (k3 : ℕ) × ComesFirst f1 time k1
          × ComesFirst f2 (time + k1) k2
          × ComesFirst f3 (time + k1 + k2) k3)
  unfolding three_waits after1 after2 wait3
  three_waits_iff time = (
    λ done. elim (Bool-cases ((await_from timeout f1 time).0)) [
      | inr bad ↦
          let w1 = await_from timeout f1 time in
          let failed : (three_waits time).0 ≡ false =
            ap
              (λ (c : Bool).
                (if not c then (false, (a, w1.1)) else after2 (await_from timeout f2 (w1.1))).0)
              bad in
          absurd (ground (arith, failed, done))
      | inl good ↦
          let (k1, first) = comes_first f1 time good in
          let e1 = ap after1 (first_comes f1 time k1 first) in
          elim (Bool-cases ((await_from timeout f2 (time + k1)).0)) [
            | inr bad ↦
                let w2 = await_from timeout f2 (time + k1) in
                let failed : (three_waits time).0 ≡ false =
                  ap (λ r. r.0) e1
                  ∙ ap (λ (c : Bool). (if not c then (false, (a, w2.1)) else wait3 (w2.1)).0) bad in
                absurd (ground (arith, failed, done))
            | inl good' ↦
                let (k2, second) = comes_first f2 (time + k1) good' in
                let e2 = ap after2 (first_comes f2 (time + k1) k2 second) in
                let (k3, third) =
                  comes_first f3 (time + k1 + k2) (sym (ap (λ r. r.0) (e1 ∙ e2)) ∙ done) in
                (k1, k2, k3, first, second, third)
          ]
    ],
    λ all.
        let (k1, k2, k3, first, second, third) = all in
        ap (λ r. r.0)
          (ap after1 (first_comes f1 time k1 first)
            ∙ ap after2 (first_comes f2 (time + k1) k2 second))
        ∙ ap (λ r. r.0) (first_comes f3 (time + k1 + k2) k3 third),
  )

  two_waits_time : (time : ℕ) → (after2 (await_from timeout f2 time)).1.1 ≤ time + 6000
  unfolding after2 wait3
  two_waits_time time =
      let w2 = await_from timeout f2 time in
      let b2 = await_from_time timeout f2 time in
      let b3 = await_from_time timeout f3 (w2.1) in
      let P : Bool × (PortCommand × ℕ) → Type 0 = λ r. r.1.1 ≤ time + 6000 in
      by_if P (not (w2.0)) (false, (a, w2.1)) (wait3 (w2.1)) (λ _. omega (arith, b2))
        (λ _. omega (arith, b2, b3))

  two_waits_iff :
      (time : ℕ)
      → ((after2 (await_from timeout f2 time)).0 ≡ true)
        ↔ ((k1 : ℕ) × (k2 : ℕ) × ComesFirst f2 time k1 × ComesFirst f3 (time + k1) k2)
  unfolding after2 wait3
  two_waits_iff time = (
    λ done. elim (Bool-cases ((await_from timeout f2 time).0)) [
      | inr bad ↦
          let w2 = await_from timeout f2 time in
          let failed : (after2 w2).0 ≡ false =
            ap (λ (c : Bool). (if not c then (false, (a, w2.1)) else wait3 (w2.1)).0) bad in
          absurd (ground (arith, failed, done))
      | inl good ↦
          let (k1, first) = comes_first f2 time good in
          let e = ap after2 (first_comes f2 time k1 first) in
          let (k2, second) = comes_first f3 (time + k1) (sym (ap (λ r. r.0) e) ∙ done) in
          (k1, k2, first, second)
    ],
    λ all.
        let (k1, k2, first, second) = all in
        ap (λ r. r.0) (ap after2 (first_comes f2 time k1 first))
        ∙ ap (λ r. r.0) (first_comes f3 (time + k1) k2 second),
  )

-- Starting and stopping a port ends on every controller, after at most 9000 rounds of the waiting
-- loops. Starting says true exactly if the receive engine comes up within 3000 polls, then the
-- drive gets ready within 3000, and then the command engine comes up within 3000; stopping exactly
-- if the command engine and then the receive engine go down in time. Each engine is switched before
-- it is waited for.
pub set_sata_port_status-IsSwitched :
    (monitor : Monitor) (cmd : PortCommand) (time : ℕ)
    → ((set_sata_port_status monitor true cmd time).1.1 ≤ time + 9000)
      × (((set_sata_port_status monitor true cmd time).0 ≡ true) ↔ IsStarted monitor cmd time)
      × ((set_sata_port_status monitor false cmd time).1.1 ≤ time + 6000)
      × (((set_sata_port_status monitor false cmd time).0 ≡ true) ↔ IsStopped monitor cmd time)
unfolding set_sata_port_status await_fis_receive_engine await_drive_ready await_command_list_engine
    same_bit three_waits after1 after2 wait3
set_sata_port_status-IsSwitched monitor cmd time =
    let f1 = receives monitor (record cmd { fre = true }) true in
    let f2 = is_ready monitor (record cmd { fre = true }) in
    let f3 = runs monitor (record cmd { fre = true; st = true }) true in
    let g2 = runs monitor (record cmd { st = false }) false in
    let g3 = receives monitor (record cmd { fre = false; st = false }) false in
    let on = record cmd { fre = true } in
    let started = record cmd { fre = true; st = true } in
    let stopped = record cmd { st = false } in
    let off = record cmd { fre = false; st = false } in
    let (up, up') = three_waits_iff f1 f2 f3 on started time in
    let (down, down') = two_waits_iff f1 g2 g3 stopped off time in
    (
      three_waits_time f1 f2 f3 on started time,
      (
        λ done.
            let (k1, k2, k3, a, b, c) = up done in
            record { k1 = k1; k2 = k2; k3 = k3; up = a; ready = b; started = c },
        λ st. up' (st.k1, st.k2, st.k3, st.up, st.ready, st.started),
      ),
      two_waits_time f1 g2 g3 stopped off time,
      (
        λ done. let (k1, k2, a, b) = down done in record { k1 = k1; k2 = k2; down = a; quiet = b },
        λ st. down' (st.k1, st.k2, st.down, st.quiet),
      ),
    )
