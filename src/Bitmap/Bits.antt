-- ===== src/Bitmap/Bits.antt =====
-- What the bit operations of kernel/types/bit/bit.h do to each bit.
use esz_os.Base.{
  ℕ, ◌-◌, ◌/◌, ◌%◌, ◌^◌, ◌<◌, ◌≡◌, refl, Bool, true, false, not, bit_and, bit_or, inl, inr, arith,
  ◌==◌, if◌then◌else◌, Buffer, store_self, store_ne, store-IsBytes, IsBytes, u8, all_below,
  all_below_sound, eq_or_ne,
}
use esz_os.Bitmap.{bit_set, bit_clear, bit_write, bit_read}

-- Bit `j` of the byte `x`.
abbrev bit : ℕ → ℕ → Bool
bit x j = not (bit_and (x / 2 ^ j) 1 == 0)

abbrev same : Bool → Bool → Bool
same true b = b
same false b = not b

same→eq : (a b : Bool) → same a b ≡ true → a ≡ b
same→eq a b h = ground arith

set_at : ℕ → ℕ → ℕ → Bool
set_at k j x = same (bit (u8 (bit_or x (2 ^ k))) j) (if j == k then true else bit x j)

clear_at : ℕ → ℕ → ℕ → Bool
clear_at k j x =
    same (bit (u8 (bit_and x (2 ^ 32 - 1 - 2 ^ k))) j) (if j == k then false else bit x j)

set_table : all_below 8 (λ k. all_below 8 (λ j. all_below 256 (set_at k j))) ≡ true
unfolding all_below set_at
set_table = refl

clear_table : all_below 8 (λ k. all_below 8 (λ j. all_below 256 (clear_at k j))) ≡ true
unfolding all_below clear_at
clear_table = refl

module _ (p : ℕ → ℕ → ℕ → Bool)
    (table : all_below 8 (λ k. all_below 8 (λ j. all_below 256 (p k j))) ≡ true) where
  table_sound : (k j x : ℕ) → k < 8 → j < 8 → x < 256 → p k j x ≡ true
  table_sound k j x hk hj hx =
      all_below_sound 256 (p k j) x
        (all_below_sound 8 (λ j. all_below 256 (p k j)) j
          (all_below_sound 8 (λ k. all_below 8 (λ j. all_below 256 (p k j))) k table hk) hj)
        hx

bit_or_lem :
    (k j x : ℕ)
    → k < 8
    → j < 8
    → x < 256
    → bit (u8 (bit_or x (2 ^ k))) j ≡ (if j == k then true else bit x j)
unfolding set_at
bit_or_lem k j x hk hj hx = same→eq _ _ (table_sound set_at set_table k j x hk hj hx)

bit_and_lem :
    (k j x : ℕ)
    → k < 8
    → j < 8
    → x < 256
    → bit (u8 (bit_and x (2 ^ 32 - 1 - 2 ^ k))) j ≡ (if j == k then false else bit x j)
unfolding clear_at
bit_and_lem k j x hk hj hx = same→eq _ _ (table_sound clear_at clear_table k j x hk hj hx)

pub bit_write-IsBytes : (m : Buffer) (p : ℕ) (v : Bool) → IsBytes m → IsBytes (bit_write m p v)
unfolding bit_write bit_set bit_clear
bit_write-IsBytes m p true ok = store-IsBytes m (p / 8) _ ok (omega arith)
bit_write-IsBytes m p false ok = store-IsBytes m (p / 8) _ ok (omega arith)

module _ (m : Buffer) (p q : ℕ) (ok : IsBytes m) where
  bit_read-bit_set : bit_read (bit_set m p) q ≡ (if q == p then true else bit_read m q)
  unfolding bit_read bit_set
  bit_read-bit_set = elim (eq_or_ne (q / 8) (p / 8)) [
    | inl e ↦
        rw (e, store_self)
          (ground (
            arith,
            bit_or_lem (p % 8) (q % 8) (m (p / 8)) (omega arith) (omega arith) (ok (p / 8)),
          ))
    | inr ne ↦ rw (store_ne _ _ _ _ ne) (ground arith)
  ]

  bit_read-bit_clear : bit_read (bit_clear m p) q ≡ (if q == p then false else bit_read m q)
  unfolding bit_read bit_clear
  bit_read-bit_clear = elim (eq_or_ne (q / 8) (p / 8)) [
    | inl e ↦
        rw (e, store_self)
          (ground (
            arith,
            bit_and_lem (p % 8) (q % 8) (m (p / 8)) (omega arith) (omega arith) (ok (p / 8)),
          ))
    | inr ne ↦ rw (store_ne _ _ _ _ ne) (ground arith)
  ]

-- After a bit of a bitmap is written, that bit reads as written and every other bit as before.
pub bit_read-bit_write :
    (m : Buffer) (p q : ℕ) (v : Bool)
    → IsBytes m
    → bit_read (bit_write m p v) q ≡ (if q == p then v else bit_read m q)
unfolding bit_write
bit_read-bit_write m p q true ok = bit_read-bit_set m p q ok
bit_read-bit_write m p q false ok = bit_read-bit_clear m p q ok

full_table : all_below 8 (λ j. bit 0xFF j) ≡ true
unfolding all_below
full_table = refl

-- All bits of the byte 0xFF are set.
pub bit_read-full : (m : Buffer) (q : ℕ) → m (q / 8) ≡ 0xFF → bit_read m q ≡ true
unfolding bit_read
bit_read-full m q e = rw e (all_below_sound 8 (λ j. bit 0xFF j) (q % 8) full_table (omega arith))
