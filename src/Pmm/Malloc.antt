-- ===== src/Pmm/Malloc.antt =====
-- `pmm_malloc` and `pmm_free` of kernel/memory/physical/pmm/pmm.cpp.
use esz_os.Base.{
  ℕ, ◌+◌, ◌*◌, ◌/◌, ◌%◌, ◌^◌, ◌<◌, ◌≡◌, ◌≢◌, refl, inl, inr, Bool, true, false, arith,
  if◌then◌else◌, IsBytes,
}
use esz_os.Config.{page_size}
use esz_os.Math.Laws.{divide_round_up_page}
use esz_os.Bitmap.{bit_read, find_free_range}
use esz_os.Bitmap.Search.{IsFirstFit, HasNoFit, Searched, find_free_range-Searched}
use esz_os.Bitmap.Ranges.{in_range, write_bits-IsBytes, bit_read-write_bits}
use esz_os.Pmm.{Pmm, bytes_of, pmm_malloc_failed, pmm_malloc, pmm_malloc_found, pmm_free}

-- What a call for `n` pages did: it took the first fitting run, or changed nothing as there is none.
pub data Allocated (p : Pmm) (n : ℕ) : ℕ × Pmm → Type 0 where
  taken :
      (start : ℕ) (p' : Pmm)
      → IsFirstFit (bytes_of p) p.pmm_bitmap.count n start
      → ((q : ℕ)
          → bit_read (bytes_of p') q
            ≡ (if in_range start n q then true else bit_read (bytes_of p) q))
      → IsBytes (bytes_of p')
      → p'.pmm_bitmap.count ≡ p.pmm_bitmap.count
      → Allocated p n (start * page_size, p')
  full : HasNoFit (bytes_of p) p.pmm_bitmap.count n → Allocated p n (pmm_malloc_failed, p)

module _ (p : Pmm) (n : ℕ) (few : p.pmm_bitmap.count < 2 ^ 50) (ok : IsBytes (bytes_of p)) where
  found-Allocated :
      (r : ℕ × Bool)
      → Searched (bytes_of p) p.pmm_bitmap.count n r
      → Allocated p n (pmm_malloc_found n r p)
  unfolding pmm_malloc_found
  found-Allocated (start, true) (inl (_, fit)) =
      let exact : start * page_size % 2 ^ 64 ≡ start * page_size = omega (arith, fit.inside) in
      rw exact (
        taken start _ fit (λ q. bit_read-write_bits n start true (bytes_of p) q ok)
          (write_bits-IsBytes n start true (bytes_of p) ok) refl)
  found-Allocated (start, false) (inl (e, _)) = absurd (cc)
  found-Allocated (start, true) (inr (e, _, _)) = absurd (cc)
  found-Allocated (start, false) (inr (_, _, no_fit)) = full no_fit

-- A call for at least one byte takes the first run of free pages that covers the bytes, marks
-- exactly these pages as used and returns the address of the first; it fails, with the state
-- unchanged, exactly when there is no such run. Byte counts and the bitmap stay below 2 ^ 50.
pub pmm_malloc-Allocated :
    (p : Pmm) (byte_amount : ℕ)
    → 0 < byte_amount
    → byte_amount < 2 ^ 50
    → p.pmm_bitmap.count < 2 ^ 50
    → IsBytes (bytes_of p)
    → Allocated p ((byte_amount + 4095) / 4096) (pmm_malloc byte_amount p)
unfolding pmm_malloc
pmm_malloc-Allocated p byte_amount pos small few ok =
    let n = (byte_amount + 4095) / 4096 in
    rw (divide_round_up_page byte_amount (omega arith)) (
      found-Allocated p n few ok (find_free_range p.pmm_bitmap n)
        (find_free_range-Searched p.pmm_bitmap n (omega arith)))

Allocated-kept :
    {p : Pmm} {n : ℕ} {r : ℕ × Pmm}
    → p.pmm_bitmap.count < 2 ^ 50
    → IsBytes (bytes_of p)
    → Allocated p n r
    → (r.1.pmm_bitmap.count < 2 ^ 50) × IsBytes (bytes_of r.1)
Allocated-kept few ok (full _) = (few, ok)
Allocated-kept few ok (taken start p' fit marked ok' same) = (rw same few, ok')

Allocated-freed :
    (p : Pmm) (byte_amount q : ℕ) {r : ℕ × Pmm}
    → byte_amount < 2 ^ 50
    → Allocated p ((byte_amount + 4095) / 4096) r
    → r.0 ≢ pmm_malloc_failed
    → bit_read (bytes_of (pmm_free r.0 byte_amount r.1).1) q ≡ bit_read (bytes_of p) q
unfolding pmm_free
Allocated-freed p byte_amount q small (full _) ne = absurd (ne refl)
Allocated-freed p byte_amount q small (taken start p' fit marked ok' same) ne =
    let n = (byte_amount + 4095) / 4096 in
    let at : start * 4096 / 4096 ≡ start = omega arith in
    rw (divide_round_up_page byte_amount (omega arith), at)
      (ground (arith, bit_read-write_bits n start false (bytes_of p') q ok', marked q, fit.free q))

-- After a successful call, freeing the returned address for the same number of bytes gives every
-- page the state that it had before the call.
pub pmm_free-pmm_malloc :
    (p : Pmm) (byte_amount q : ℕ)
    → 0 < byte_amount
    → byte_amount < 2 ^ 50
    → p.pmm_bitmap.count < 2 ^ 50
    → IsBytes (bytes_of p)
    → (pmm_malloc byte_amount p).0 ≢ pmm_malloc_failed
    → bit_read
        (bytes_of
          (pmm_free (pmm_malloc byte_amount p).0 byte_amount (pmm_malloc byte_amount p).1).1)
        q
      ≡ bit_read (bytes_of p) q
pmm_free-pmm_malloc p byte_amount q pos small few ok =
    Allocated-freed p byte_amount q small (pmm_malloc-Allocated p byte_amount pos small few ok)

Allocated-apart :
    (p : Pmm) (n k q : ℕ) {r s : ℕ × Pmm}
    → Allocated p n r
    → Allocated r.1 k s
    → r.0 ≢ pmm_malloc_failed
    → s.0 ≢ pmm_malloc_failed
    → in_range (r.0 / page_size) n q ≡ true
    → in_range (s.0 / page_size) k q ≡ false
Allocated-apart p n k q (full _) _ ne ne' h = absurd (ne refl)
Allocated-apart p n k q (taken a p' fit marked ok' same) (full _) ne ne' h = absurd (ne' refl)
Allocated-apart p n k q (taken a p' fit marked ok' same) (taken b p'' fit' marked' ok'' same') ne
      ne' h =
    let at : a * 4096 / 4096 ≡ a = omega arith in
    let at' : b * 4096 / 4096 ≡ b = omega arith in
    let h' : in_range a n q ≡ true = rw at at h in rw at' (ground (arith, marked q, fit'.free q))

-- Two successful calls in a row hand out page ranges that share no page.
pub pmm_malloc_twice :
    (p : Pmm) (bytes1 bytes2 q : ℕ)
    → 0 < bytes1
    → bytes1 < 2 ^ 50
    → 0 < bytes2
    → bytes2 < 2 ^ 50
    → p.pmm_bitmap.count < 2 ^ 50
    → IsBytes (bytes_of p)
    → let (addr1, p1) = pmm_malloc bytes1 p in
      let (addr2, p2) = pmm_malloc bytes2 p1 in
      addr1 ≢ pmm_malloc_failed
      → addr2 ≢ pmm_malloc_failed
      → in_range (addr1 / page_size) ((bytes1 + 4095) / 4096) q ≡ true
      → in_range (addr2 / page_size) ((bytes2 + 4095) / 4096) q ≡ false
pmm_malloc_twice p bytes1 bytes2 q pos1 small1 pos2 small2 few ok =
    let first = pmm_malloc-Allocated p bytes1 pos1 small1 few ok in
    let (few', ok') = Allocated-kept few ok first in
    Allocated-apart p _ _ q first
      (pmm_malloc-Allocated (pmm_malloc bytes1 p).1 bytes2 pos2 small2 few' ok')
