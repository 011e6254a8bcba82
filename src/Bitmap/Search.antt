-- ===== src/Bitmap/Search.antt =====
-- `Bitmap::find_free_range` of kernel/helper/bitmap/bitmap.cpp: a first-fit search.
use esz_os.Base.{
  ℕ, zero, suc, ◌+◌, ◌-◌, ◌≤◌, ◌<◌, ◌≡◌, refl, ◌⊎◌, Bool, true, false, inl, inr, arith, ◌==◌,
  if◌then◌else◌, Buffer, Bool-cases, eq_or_ne, ==→eq, ==→ne,
}
use esz_os.Bitmap.{Bitmap, bit_read, search_range, find_free_range}

-- The bits of `[p, p + n)` are clear.
abbrev pub IsFree : Buffer → ℕ → ℕ → Type 0
IsFree m p n = (q : ℕ) → p ≤ q → q < p + n → bit_read m q ≡ false

-- `p` begins the first run of `n` clear bits below `count`.
pub record IsFirstFit (m : Buffer) (count n p : ℕ) : Type 0 where
  pub inside : p + n ≤ count
  pub free : IsFree m p n
  pub first : (p' : ℕ) → p' < p → ¬ IsFree m p' n

-- No run of `n` clear bits ends at or below `count`.
abbrev pub HasNoFit : Buffer → ℕ → ℕ → Type 0
HasNoFit m count n = (p : ℕ) → p + n ≤ count → ¬ IsFree m p n

abbrev pub Searched : Buffer → ℕ → ℕ → ℕ × Bool → Type 0
Searched m count n (p, success) =
    ((success ≡ true) × IsFirstFit m count n p) ⊎ ((success ≡ false) × (p ≡ 0) × HasNoFit m count n)

-- What the loop knows at bit `i`: the current run, that it cannot be extended to the left, and
-- that no run of `n` bits ends at or below `i`.
record IsScanning (m : Buffer) (n i found first : ℕ) : Type 0 where
  short : found < n
  within : found ≤ i
  start : (found ≡ 0) ⊎ (first + found ≡ i)
  run : IsFree m (i - found) found
  left : (i - found ≡ 0) ⊎ (bit_read m (i - found - 1) ≡ true)
  none_yet : HasNoFit m i n

le_or_last : (a b : ℕ) → a ≤ b + 1 → (a ≤ b) ⊎ (a ≡ b + 1)
le_or_last a b h = omega arith

true≢false : {b : Bool} → b ≡ true → b ≡ false → ⊥
true≢false p q = cc

module _ (m : Buffer) (n : ℕ) (pos : 0 < n) where
  -- A set bit ends the run.
  after_set :
      {i found first : ℕ}
      → IsScanning m n i found first
      → bit_read m i ≡ true
      → IsScanning m n (i + 1) 0 first
  after_set {i} {found} {first} s used = record {
    short = pos;
    within = omega arith;
    start = inl refl;
    run = λ q a b. absurd (omega arith);
    left = inr (let e : i + 1 - 0 - 1 ≡ i = omega arith in rw e used);
    none_yet = λ p fits free. elim (le_or_last (p + n) i fits) [
      | inl le ↦ s.none_yet p le free
      | inr e ↦ true≢false used (free i (omega arith) (omega arith))
    ];
  }

  run-suc :
      {i found first : ℕ}
      → IsScanning m n i found first
      → bit_read m i ≡ false
      → IsFree m (i + 1 - (found + 1)) (found + 1)
  run-suc {i} {found} s clear q a b = elim (eq_or_ne q i) [
    | inl e ↦ rw e clear
    | inr ne ↦ s.run q (omega (arith, s.within)) (omega (arith, s.within))
  ]

  -- A clear bit extends the run, which is still short.
  after_clear :
      {i found first : ℕ} (start : ℕ)
      → IsScanning m n i found first
      → bit_read m i ≡ false
      → found + 1 < n
      → start ≡ (if found == 0 then i else first)
      → IsScanning m n (i + 1) (found + 1) start
  after_clear {i} {found} {first} start s clear more e = record {
    short = more;
    within = omega (arith, s.within);
    start = inr (ground (arith, s.start));
    run = run-suc s clear;
    left = let e : i + 1 - (found + 1) ≡ i - found = omega arith in rw e s.left;
    none_yet = λ p fits free. elim (le_or_last (p + n) i fits) [
      | inl le ↦ s.none_yet p le free
      | inr last ↦ elim s.left [
        | inl z ↦ absurd (omega arith)
        | inr used ↦ true≢false used (free (i - found - 1) (omega arith) (omega (arith, s.within)))
      ]
    ];
  }

  -- A clear bit that fills the run: its begin is the answer.
  hit :
      {i found first count : ℕ} (start : ℕ)
      → IsScanning m n i found first
      → bit_read m i ≡ false
      → found + 1 ≡ n
      → i < count
      → start ≡ (if found == 0 then i else first)
      → IsFirstFit m count n start
  hit {i} {found} {first} start s clear full below e =
      let at : start ≡ i - found = ground (arith, s.start, s.within) in
      record {
        inside = omega (arith, s.within);
        free = λ q a b. run-suc s clear q (omega arith) (omega (arith, s.within));
        first = λ p lt free. s.none_yet p (omega (arith, s.within)) free;
      }

  search_range-Searched :
      (left i found first count : ℕ)
      → i + left ≡ count
      → IsScanning m n i found first
      → Searched m count n (search_range m n left i found first)
  unfolding search_range
  search_range-Searched zero i found first count e s =
      let e' : i ≡ count = omega arith in inr (refl, refl, rw e' at s.none_yet)
  search_range-Searched (suc left) i found first count e s = elim (Bool-cases (bit_read m i)) [
    | inl used ↦
        rw (used, search_range)
          (search_range-Searched left (i + 1) 0 first count (omega arith) (after_set s used))
    | inr clear ↦
        rw (clear, search_range)
          (elim (Bool-cases (found + 1 == n)) [
            | inl full ↦ rw full (inl (refl, hit _ s clear (==→eq _ _ full) (omega arith) refl))
            | inr more ↦ rw more (
                search_range-Searched left (i + 1) (found + 1) _ count (omega arith)
                  (after_clear _ s clear (omega (arith, s.short, ==→ne _ _ more)) refl))
          ])
  ]

-- For a range of at least one bit the search finds the first run of clear bits that is long
-- enough and lies inside the bitmap; it fails, with 0, exactly when there is none.
pub find_free_range-Searched :
    (b : Bitmap) (range : ℕ) → 0 < range → Searched b.bytes b.count range (find_free_range b range)
unfolding find_free_range
find_free_range-Searched b range pos =
    search_range-Searched b.bytes range pos b.count 0 0 0 b.count (omega arith) (record {
      short = pos;
      within = omega arith;
      start = inl refl;
      run = λ q a b. absurd (omega arith);
      left = inl (omega arith);
      none_yet = λ p fits. absurd (omega arith);
    })

-- A range of no bits is never found.
search_range-zero :
    (m : Buffer) (left i found first : ℕ) → search_range m 0 left i found first ≡ (0, false)
unfolding search_range
search_range-zero m zero i found first = refl
search_range-zero m (suc left) i found first = ground (
  arith,
  search_range-zero m left (i + 1) 0 first,
  search_range-zero m left (i + 1) (found + 1) (if found == 0 then i else first),
)

pub find_free_range-zero : (b : Bitmap) → find_free_range b 0 ≡ (0, false)
unfolding find_free_range
find_free_range-zero b = search_range-zero b.bytes b.count 0 0 0
