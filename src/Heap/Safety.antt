-- ===== src/Heap/Safety.antt =====
-- What a client of kernel/memory/heap/heap.cpp may rely on: its blocks are its own.
use esz_os.Base.{
  ℕ, ◌+◌, ◌-◌, ◌≤◌, ◌≡◌, ◌≢◌, refl, true, false, Option, none, some, ltb, List, [], ◌∷◌, ◌++◌,
  arith, ◌∙◌, ap, sym, subst, ◌⊎◌, inl, inr, Bool-cases, ltb→le,
}
use esz_os.Heap.{Header, block, Heap, malloc}
use esz_os.Heap.Layout.{extent, IsHeap, Chain-extent, Chain-after, extent-append}
use esz_os.Heap.Malloc.{fits, serve, Malloced, got, refused, malloc-Malloced}
use esz_os.Heap.Coalesced.{fit-parts}

cons_parts : (x y : Header) (xs ys : List Header) → x ∷ xs ≡ y ∷ ys → (x ≡ y) × (xs ≡ ys)
cons_parts x y xs ys e = (cc, cc)

used≢free : (c b : Header) → c ≡ b → c.used ≡ true → b.used ≡ false → ⊥
used≢free c b e busy idle = cc

-- Where a block in use stands relative to a free one of the same list.
apart_sides :
    (xs : List Header) (c : Header) (ys before : List Header) (b : Header) (after : List Header)
    → xs ++ (c ∷ ys) ≡ before ++ (b ∷ after)
    → c.used ≡ true
    → b.used ≡ false
    → (extent before + 8 + b.length ≤ extent xs) ⊎ (extent xs + 8 + c.length ≤ extent before)
apart_sides [] c ys [] b after e busy idle =
    absurd (used≢free c b (cons_parts c b _ _ e).0 busy idle)
apart_sides [] c ys (x ∷ before) b after e busy idle =
    let same = (cons_parts c x _ _ e).0 in inr (ground arith)
apart_sides (x ∷ xs) c ys [] b after e busy idle =
    let same = (cons_parts x b _ _ e).0 in inl (ground arith)
apart_sides (x ∷ xs) c ys (y ∷ before) b after e busy idle =
    let (same, rest) = cons_parts x y _ _ e in
    ground (arith, apart_sides xs c ys before b after rest busy idle)

serve-head :
    (size : ℕ) (b : Header)
    → fits size b ≡ true
    → (u : Header) × (us : List Header) × (serve size b ≡ u ∷ us)
      × (u.used ≡ true)
      × (size ≤ u.length)
      × (u.length ≤ b.length)
      × (u.length ≤ size + 16)
unfolding serve
serve-head size b fit =
    let (large, _) = fit-parts size b fit in
    elim (Bool-cases (ltb (size + 16) b.length)) [
      | inl wide ↦ (
        block size true,
        block (b.length - size - 8) false ∷ [],
        rw wide refl,
        refl,
        omega arith,
        large,
        omega arith,
      )
      | inr narrow ↦ (
        block b.length true,
        [],
        rw narrow refl,
        refl,
        large,
        omega arith,
        omega (arith, ltb→le _ _ narrow),
      )
    ]

-- What a call that returned `p` gives the caller, and what it leaves to the owner of every block
-- that is in use.
pub record IsSafe (h : Heap) (size : ℕ) (bs : List Header) (p : ℕ) (h' : Heap) : Type 0 where
  pub after_start : h.heap_start + 8 ≤ p
  pub before_end : p + size ≤ h.heap_end
  pub in_use : (h'.header (p - 8)).used ≡ true
  pub large : size ≤ (h'.header (p - 8)).length
  pub tight : (h'.header (p - 8)).length ≤ size + 16
  pub kept :
      (xs : List Header) (c : Header) (ys : List Header)
      → bs ≡ xs ++ (c ∷ ys)
      → c.used ≡ true
      → h'.header (h.heap_start + extent xs) ≡ c
  pub apart :
      (xs : List Header) (c : Header) (ys : List Header)
      → bs ≡ xs ++ (c ∷ ys)
      → c.used ≡ true
      → (p + (h'.header (p - 8)).length ≤ h.heap_start + extent xs)
        ⊎ (h.heap_start + extent xs + 8 + c.length + 8 ≤ p)

abbrev Safe : Heap → ℕ → List Header → Option (ℕ × Heap) → Type 0
Safe h size bs none = ⊥
Safe h size bs (some (p, h')) = p ≢ 0 → IsSafe h size bs p h'

Malloced-Safe :
    (h : Heap) (size : ℕ) (bs : List Header) {r : Option (ℕ × Heap)}
    → IsHeap h bs
    → Malloced h size bs r
    → Safe h size bs r
Malloced-Safe h size bs is (refused _) = λ ne. absurd (ne refl)
Malloced-Safe h size bs is (got before b after g f is' starts frame) = λ ne.
    let (u, us, cut, used, large, small, tight) = serve-head size b f.fit in
    let (_, idle) = fit-parts size b f.fit in
    let whole = Chain-extent h.header h.heap_start h.heap_end _ is.chain in
    let parts = extent-append before (b ∷ after) in
    let sums = ap extent f.cut in
    let p_eq : h.heap_start + extent before + 8 - 8 ≡ h.heap_start + extent before = omega arith in
    let served : g.header (h.heap_start + extent before) ≡ u =
      let is'' : IsHeap g (before ++ (u ∷ (us ++ after))) =
        subst (λ l. IsHeap g (before ++ (l ++ after))) cut is' in
      subst (λ s. g.header (s + extent before) ≡ u) starts
        (Chain-after g.header g.heap_start g.heap_end before (u ∷ (us ++ after)) is''.chain).0 in
    record {
      after_start = omega arith;
      before_end = omega arith;
      in_use = rw (p_eq, served) used;
      large = rw (p_eq, served) large;
      tight = rw (p_eq, served) tight;
      kept = λ xs c ys at busy.
          let sides = apart_sides xs c ys before b after (sym at ∙ f.cut) busy idle in
          let there : h.header (h.heap_start + extent xs) ≡ c =
            (Chain-after h.header h.heap_start h.heap_end xs (c ∷ ys)
              (subst (IsHeap h) at is).chain).0 in
          frame (h.heap_start + extent xs) (omega (arith, sides)) ∙ there;
      apart = λ xs c ys at busy.
          let sides = apart_sides xs c ys before b after (sym at ∙ f.cut) busy idle in
          rw (p_eq, served) (omega (arith, sides));
    }

-- When `malloc` returns a payload, it lies inside the heap behind a header that is marked as used
-- and has at least the requested and at most 16 bytes more. The header of every block that was in
-- use before stands unchanged, and the new payload shares no byte with that block.
pub malloc-IsSafe :
    (h : Heap) (size : ℕ) (bs : List Header) (p : ℕ) (h' : Heap)
    → IsHeap h bs
    → malloc size h ≡ some (p, h')
    → p ≢ 0
    → IsSafe h size bs p h'
malloc-IsSafe h size bs p h' is e =
    subst (Safe h size bs) e (Malloced-Safe h size bs is (malloc-Malloced h size bs is))
