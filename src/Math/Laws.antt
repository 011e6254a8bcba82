-- ===== src/Math/Laws.antt =====
-- What the rounding of kernel/math/math.h computes.
use esz_os.Base.{ℕ, ◌+◌, ◌-◌, ◌*◌, ◌/◌, ◌%◌, ◌^◌, ◌≤◌, ◌<◌, ◌≡◌, ◌↔◌, true, arith}
use native.Mathlib.Nat.{mod-lt, mul-mod_right, div-add-mod}
use esz_os.Math.{divide_round_up, is_aligned, align_up, align_down}

-- For a positive divisor and a sum that does not wrap around, `divide_round_up` is the quotient
-- rounded up: the least `q` with `a ≤ q * b`.
pub divide_round_up-bounds :
    (a b : ℕ)
    → 0 < b
    → a + b < 2 ^ 64
    → (a ≤ divide_round_up a b * b) × (divide_round_up a b * b < a + b)
unfolding divide_round_up
divide_round_up-bounds a b pos fits = grind arith

-- By the page size, with the modulus away from it.
pub divide_round_up_page : (a : ℕ) → a < 2 ^ 63 → divide_round_up a 4096 ≡ (a + 4095) / 4096
unfolding divide_round_up
divide_round_up_page a fits = omega arith

-- A block of whole pages takes exactly its pages.
pub divide_round_up-mul_page : (n : ℕ) → n < 2 ^ 50 → divide_round_up (4096 * n) 4096 ≡ n
divide_round_up-mul_page n fits = omega (arith, divide_round_up_page (4096 * n) (omega arith))

mod_of_multiple : (m n q : ℕ) → n ≡ m * q → n % m ≡ 0
mod_of_multiple m n q e = rw e (mul-mod_right m q)

next_multiple : (n m : ℕ) → 0 < m → n + (m - n % m) ≡ m * (n / m + 1)
next_multiple n m pos = grind (arith, div-add-mod)

last_multiple : (n m : ℕ) → n - n % m ≡ m * (n / m)
last_multiple n m = omega (arith, div-add-mod n m)

-- `align_up` gives the least multiple of the alignment that is not below the address, and
-- `align_down` the greatest that is not above it, where the sum does not wrap around.
pub align_bounds :
    (addr align : ℕ)
    → 0 < align
    → addr + align < 2 ^ 64
    → (align_up addr align % align ≡ 0)
      × (addr ≤ align_up addr align)
      × (align_up addr align < addr + align)
      × (align_down addr align % align ≡ 0)
      × (align_down addr align ≤ addr)
      × (addr < align_down addr align + align)
unfolding align_up align_down
align_bounds addr align pos fits = ground (
  arith,
  mod-lt addr pos,
  mod_of_multiple align (addr + (align - addr % align)) (addr / align + 1)
      (next_multiple addr align pos),
  mod_of_multiple align (addr - addr % align) (addr / align) (last_multiple addr align),
)

-- `is_aligned` accepts an address exactly when aligning it up, or down, changes nothing.
pub is_aligned_iff :
    (addr align : ℕ)
    → 0 < align
    → addr + align < 2 ^ 64
    → ((is_aligned addr align ≡ true) ↔ (align_up addr align ≡ addr))
      × ((is_aligned addr align ≡ true) ↔ (align_down addr align ≡ addr))
unfolding align_up align_down is_aligned
is_aligned_iff addr align pos fits = ground (arith, mod-lt addr pos)
