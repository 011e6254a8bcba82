-- ===== src/Bitmap.antt =====
-- The bit operations of kernel/types/bit/bit.h and the class `Bitmap` of
-- kernel/helper/bitmap/bitmap.cpp. `bytes i` is `bitmap[i]`, an `unsigned char`.
pub mod Bits
pub mod Search
pub mod Ranges
mod Tests
use esz_os.Base.{
  ℕ, zero, suc, ◌+◌, ◌-◌, ◌*◌, ◌/◌, ◌%◌, ◌^◌, Bool, true, false, not, bit_and, bit_or, ◌==◌,
  if◌then◌else◌, Buffer, store, u8,
}

-- The operators work on `int`; the assignment cuts the value off to a byte.
unfoldable pub bit_set : Buffer → ℕ → Buffer
bit_set bytes page = store bytes (page / 8) (u8 (bit_or (bytes (page / 8)) (2 ^ (page % 8))))

-- `~` on an `int` is the complement in 32 bits.
unfoldable pub bit_clear : Buffer → ℕ → Buffer
bit_clear bytes page =
    store bytes (page / 8) (u8 (bit_and (bytes (page / 8)) (2 ^ 32 - 1 - 2 ^ (page % 8))))

unfoldable pub bit_write : Buffer → ℕ → Bool → Buffer
bit_write bytes page value = if value then bit_set bytes page else bit_clear bytes page

unfoldable pub bit_read : Buffer → ℕ → Bool
bit_read bytes page = not (bit_and (bytes (page / 8) / 2 ^ (page % 8)) 1 == 0)

pub record Bitmap : Type 0 where
  pub bytes : Buffer
  pub count : ℕ

-- The loop of `clear` from `i` on, with `left` rounds to go.
unfoldable pub clear_from : ℕ → ℕ → Buffer → Buffer
clear_from zero i bytes = bytes
clear_from (suc left) i bytes = clear_from left (i + 1) (bit_clear bytes i)

unfoldable pub clear : Bitmap → Bitmap
clear b = record b { bytes = clear_from b.count 0 b.bytes }

-- The loop of `find_free_range` at bit `i`, with `left` rounds to go: `found` is
-- `foundFreeCounter` and `first` is `firstFreeOfSeries`. The result is the returned bit and
-- `success`.
unfoldable pub search_range : Buffer → ℕ → ℕ → ℕ → ℕ → ℕ → ℕ × Bool
search_range bytes range zero i found first = (0, false)
search_range bytes range (suc left) i found first = elim (bit_read bytes i) [
  | true ↦ search_range bytes range left (i + 1) 0 first
  | false ↦
      let start = if found == 0 then i else first in
      elim (found + 1 == range) [
        | true ↦ (start, true)
        | false ↦ search_range bytes range left (i + 1) (found + 1) start
      ]
]

unfoldable pub find_free_range : Bitmap → ℕ → ℕ × Bool
find_free_range b range = search_range b.bytes range b.count 0 0 0

-- `for (i = start; i < start + left; i++) bit_write(bitmap, i, state)`
unfoldable pub write_bits : ℕ → ℕ → Bool → Buffer → Buffer
write_bits zero start state bytes = bytes
write_bits (suc left) start state bytes =
    write_bits left (start + 1) state (bit_write bytes start state)

unfoldable pub write_bits_in_range_from : Bitmap → ℕ → ℕ → Bool → Bitmap
write_bits_in_range_from b range start state = record b {
  bytes = write_bits range start state b.bytes;
}
