-- ===== src/Bitmap/Ranges.antt =====
-- The loops of kernel/helper/bitmap/bitmap.cpp that write runs of bits.
use esz_os.Base.{
  ℕ, zero, suc, ◌+◌, ◌≡◌, refl, Bool, false, arith, ◌&&◌, ltb, leb, if◌then◌else◌, Buffer, IsBytes,
}
use esz_os.Bitmap.{Bitmap, bit_read, bit_clear, bit_write, clear_from, clear, write_bits}
use esz_os.Bitmap.Bits.{bit_write-IsBytes, bit_read-bit_write}

-- `q` lies in `[start, start + n)`.
abbrev pub in_range : ℕ → ℕ → ℕ → Bool
in_range start n q = leb start q && ltb q (start + n)

pub write_bits-IsBytes :
    (n start : ℕ) (v : Bool) (m : Buffer) → IsBytes m → IsBytes (write_bits n start v m)
unfolding write_bits
write_bits-IsBytes zero start v m ok = ok
write_bits-IsBytes (suc n) start v m ok =
    write_bits-IsBytes n (start + 1) v (bit_write m start v) (bit_write-IsBytes m start v ok)

-- Writing a run gives its bits the state and leaves every other bit as it was.
pub bit_read-write_bits :
    (n start : ℕ) (v : Bool) (m : Buffer) (q : ℕ)
    → IsBytes m
    → bit_read (write_bits n start v m) q ≡ (if in_range start n q then v else bit_read m q)
unfolding write_bits
bit_read-write_bits zero start v m q ok = ground arith
bit_read-write_bits (suc n) start v m q ok = ground (
  arith,
  bit_read-write_bits n (start + 1) v (bit_write m start v) q (bit_write-IsBytes m start v ok),
  bit_read-bit_write m start q v ok,
)

clear_from-eq-write_bits : (n i : ℕ) (m : Buffer) → clear_from n i m ≡ write_bits n i false m
unfolding clear_from write_bits bit_write
clear_from-eq-write_bits zero i m = refl
clear_from-eq-write_bits (suc n) i m = clear_from-eq-write_bits n (i + 1) (bit_clear m i)

-- `clear` frees every bit below the count and no other.
pub bit_read-clear :
    (b : Bitmap) (q : ℕ)
    → IsBytes b.bytes
    → bit_read (clear b).bytes q ≡ (if ltb q b.count then false else bit_read b.bytes q)
unfolding clear
bit_read-clear b q ok =
    rw (clear_from-eq-write_bits b.count 0 b.bytes)
      (ground (arith, bit_read-write_bits b.count 0 false b.bytes q ok))
