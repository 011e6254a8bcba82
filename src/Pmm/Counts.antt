-- ===== src/Pmm/Counts.antt =====
-- `get_pmm_page_counts` of kernel/memory/physical/pmm/pmm.cpp, and what an allocation does to it.
use esz_os.Base.{
  ℕ, zero, suc, ◌+◌, ◌-◌, ◌/◌, ◌^◌, ◌<◌, ◌≡◌, ◌≢◌, refl, true, arith, if◌then◌else◌, Buffer,
  IsBytes,
}
use Prim.Native.Nat.{min, max}
use esz_os.Bitmap.{bit_read}
use esz_os.Bitmap.Search.{IsFree}
use esz_os.Bitmap.Ranges.{in_range}
use esz_os.Pmm.{Pmm, bytes_of, pmm_malloc_failed, pmm_malloc, count_pages, get_pmm_page_counts}
use esz_os.Pmm.Malloc.{Allocated, taken, full, pmm_malloc-Allocated}

count_pages-total :
    (left i : ℕ) (m : Buffer) (free used : ℕ)
    → (count_pages left i m free used).0 + (count_pages left i m free used).1 ≡ free + used + left
unfolding count_pages
count_pages-total zero i m free used = omega arith
count_pages-total (suc left) i m free used = ground (
  arith,
  count_pages-total left (i + 1) m (if bit_read m i then free else free + 1)
      (if bit_read m i then used + 1 else used),
)

-- How much of `[s, s + n)` lies in `[i, i + left)`.
abbrev overlap : ℕ → ℕ → ℕ → ℕ → ℕ
overlap i left s n = min (i + left) (s + n) - max i s

module _ (m m' : Buffer) (s n : ℕ) (free : IsFree m s n)
    (marked : (q : ℕ) → bit_read m' q ≡ (if in_range s n q then true else bit_read m q)) where
  count_pages-marked :
      (left i f u f' u' d : ℕ)
      → f ≡ f' + d
      → u' ≡ u + d
      → ((count_pages left i m f u).0 ≡ (count_pages left i m' f' u').0 + d + overlap i left s n)
        × ((count_pages left i m' f' u').1 ≡ (count_pages left i m f u).1 + d + overlap i left s n)
  unfolding count_pages
  count_pages-marked zero i f u f' u' d ef eu = (omega arith, omega arith)
  count_pages-marked (suc left) i f u f' u' d ef eu =
      let (free_eq, used_eq) =
        count_pages-marked left (i + 1) (if bit_read m i then f else f + 1)
          (if bit_read m i then u + 1 else u) (if bit_read m' i then f' else f' + 1)
          (if bit_read m' i then u' + 1 else u') (d + (if in_range s n i then 1 else 0))
          (ground (arith, marked i, free i)) (ground (arith, marked i, free i)) in
      (ground (arith, free_eq), ground (arith, used_eq))

Allocated-counts :
    (p : Pmm) (n : ℕ) {r : ℕ × Pmm}
    → Allocated p n r
    → r.0 ≢ pmm_malloc_failed
    → ((get_pmm_page_counts p).0 ≡ (get_pmm_page_counts r.1).0 + n)
      × ((get_pmm_page_counts r.1).1 ≡ (get_pmm_page_counts p).1 + n)
unfolding get_pmm_page_counts
Allocated-counts p n (full _) ne = absurd (ne refl)
Allocated-counts p n (taken start p' fit marked ok' same) ne =
    let (free_eq, used_eq) =
      count_pages-marked (bytes_of p) (bytes_of p') start n fit.free marked p.pmm_bitmap.count 0 0 0
        0 0 0 (omega arith) (omega arith) in
    rw same (omega (arith, free_eq, fit.inside), omega (arith, used_eq, fit.inside))

counts-total :
    (p : Pmm) → (get_pmm_page_counts p).0 + (get_pmm_page_counts p).1 ≡ p.pmm_bitmap.count
unfolding get_pmm_page_counts
counts-total p = omega (arith, count_pages-total p.pmm_bitmap.count 0 (bytes_of p) 0 0)

-- The page counts add up to the size of the bitmap, and a successful call of `pmm_malloc` moves
-- exactly the pages that cover its bytes from the free to the used ones.
pub get_pmm_page_counts-pmm_malloc :
    (p : Pmm) (byte_amount : ℕ)
    → 0 < byte_amount
    → byte_amount < 2 ^ 50
    → p.pmm_bitmap.count < 2 ^ 50
    → IsBytes (bytes_of p)
    → (pmm_malloc byte_amount p).0 ≢ pmm_malloc_failed
    → let pages = (byte_amount + 4095) / 4096 in
      let before = get_pmm_page_counts p in
      let after = get_pmm_page_counts (pmm_malloc byte_amount p).1 in
      (before.0 + before.1 ≡ p.pmm_bitmap.count)
      × (before.0 ≡ after.0 + pages)
      × (after.1 ≡ before.1 + pages)
get_pmm_page_counts-pmm_malloc p byte_amount pos small few ok ne =
    let (free_eq, used_eq) =
      Allocated-counts p _ (pmm_malloc-Allocated p byte_amount pos small few ok) ne in
    (counts-total p, free_eq, used_eq)
