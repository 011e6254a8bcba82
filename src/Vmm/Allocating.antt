-- ===== src/Vmm/Allocating.antt =====
-- Which pages `vmm_malloc_pages` of kernel/memory/virtual/vmm/vmm.cpp maps.
use esz_os.Base.{
  ℕ, zero, suc, ◌+◌, ◌-◌, ◌*◌, ◌/◌, ◌^◌, ◌<◌, ◌≤◌, ◌≡◌, ◌≢◌, inl, inr, refl, ◌∙◌, ap, sym, subst,
  arith, Bool, true, false, ◌&&◌, ◌==◌, if◌then◌else◌, IsBytes, some, eq_or_ne, Bool-cases,
}
use esz_os.Config.{page_size}
use esz_os.Math.{divide_round_up}
use esz_os.Bitmap.{bit_read, find_free_range, write_bits_in_range_from}
use esz_os.Bitmap.Search.{IsFirstFit, Searched, find_free_range-Searched}
use esz_os.Bitmap.Ranges.{in_range, bit_read-write_bits}
use esz_os.Pmm.{Pmm, pmm_malloc, pmm_malloc_page, pmm_malloc_failed}
use esz_os.Pmm.Malloc.{Allocated, pmm_malloc-Allocated}
use esz_os.Paging.{PagingState, map_page}
use esz_os.Paging.Tables.{IsFresh, Taken, Allocated-Taken, IsPaged}
use esz_os.Paging.Lookup.{IsTree}
use esz_os.Paging.Mapping.{frame_of, map_page-MapResult}
use esz_os.Paging.Isolation.{map_page-Isolated}
use esz_os.Paging.Ranges.{page_of, MapResult-true}
use esz_os.Vmm.{
  Vmm, page_flag_write, with_pmm, page_address, malloc_from, malloc_found, vmm_malloc_pages,
}

-- A fresh page in use keeps the tables as they are.
fresh-IsPaged :
    (level : ℕ → ℕ) (root : ℕ) (s : PagingState) (phys : ℕ) (p : Pmm)
    → IsPaged level root s
    → IsFresh (s.pmm) phys p
    → IsPaged level root (with_pmm s p)
fresh-IsPaged level root s phys p ok f = record {
  bytes = f.bytes;
  few = omega (arith, f.count, ok.few);
  no_null = ok.no_null;
  null_used = f.kept 0 (ok.null_used);
  top = ok.top;
  used = λ t pos. f.kept (t / 4096) (ok.used t pos);
  fits = ok.fits;
  plain = ok.plain;
  links = ok.links;
}

module _ (root req_pages begin : ℕ) where
  -- What the loop gives from page `i` of the range on.
  record HasBacked (left i : ℕ) (success : Bool) (s : Vmm) (r : ℕ × Vmm) : Type 0 where
    was : r.0 ≢ 0 → success ≡ true
    answer : r.0 ≢ 0 → r.0 ≡ page_address begin
    bitmap : r.0 ≢ 0 → r.1.vmm_bitmap ≡ s.vmm_bitmap
    frames :
        (k : ℕ)
        → r.0 ≢ 0
        → k < left
        → (f : ℕ) × (frame_of (r.1.paging.tables) root (page_address (begin + (i + k))) ≡ some f)
    others :
        (v : ℕ)
        → ((k : ℕ) → k < left → page_of v ≢ page_of (page_address (begin + (i + k))))
        → frame_of (r.1.paging.tables) root v ≡ frame_of (s.paging.tables) root v

  abbrev Rest : ℕ → ℕ → Type 0
  Rest left i =
      (success : Bool) (s : Vmm) (level : ℕ → ℕ)
      → IsPaged level root (s.paging)
      → IsTree level (s.paging)
      → HasBacked left i success s (malloc_from left i root req_pages begin success s)

  module _ (left i : ℕ) (success : Bool) (s : Vmm) (level : ℕ → ℕ)
      (ok : IsPaged level root (s.paging)) (tree : IsTree level (s.paging))
      (few : i + suc left ≤ 2 ^ 36) (rest_of : Rest left (i + 1)) where
    at : ℕ
    at = page_address (begin + i)

    -- What the loop does with the answer of pmm_malloc_page.
    by_failure : ℕ × Pmm → Bool → ℕ × Vmm
    unfolding at
    by_failure (phys, p) failed =
        let paging = with_pmm (s.paging) p in
        let (mapped, paging') = map_page root at phys page_flag_write paging in
        elim failed [
          | true ↦ (
            0,
            record {
              paging = paging;
              vmm_bitmap = write_bits_in_range_from (s.vmm_bitmap) req_pages begin false;
            },
          )
          | false ↦
              malloc_from left (i + 1) root req_pages begin (mapped && success)
                (record s { paging = paging' })
        ]

    with_fresh :
        (phys : ℕ) (p : Pmm)
        → IsFresh (s.paging.pmm) phys p
        → HasBacked (suc left) i success s (by_failure (phys, p) false)
    unfolding by_failure at
    with_fresh phys p f =
        let paging = with_pmm (s.paging) p in
        let ok' = fresh-IsPaged level root (s.paging) phys p ok f in
        let low : phys < 2 ^ 52 = omega (arith, f.at_page, f.inside, ok.few) in
        let here = map_page root at phys page_flag_write paging in
        let iso = map_page-Isolated level root at paging ok' tree phys page_flag_write in
        let done = map_page-MapResult level root at phys page_flag_write paging ok' low in
        let rest =
          rest_of (here.0 && success) (record s { paging = here.1 }) (iso.level') (iso.paged)
            (iso.tree) in
        let after =
          malloc_from left (i + 1) root req_pages begin (here.0 && success)
            (record s { paging = here.1 }) in
        record {
          was = λ e. ground (arith, rest.was e);
          answer = rest.answer;
          bitmap = rest.bitmap;
          frames = λ k e lt. elim (eq_or_ne k 0) [
            | inl z ↦
                let kept =
                  rest.others at (λ n less same. absurd (omega (arith, less, same, few))) in
                let found = MapResult-true root at phys here done (ground (arith, rest.was e)) in
                let same : i ≡ i + k = omega (arith, z) in
                subst
                  (λ j.
                    (f : ℕ) × (frame_of (after.1.paging.tables) root (page_address (begin + j))
                      ≡ some f))
                  same (phys / 4096 * 4096, kept ∙ found)
            | inr ne ↦
                let same : i + 1 + (k - 1) ≡ i + k = omega (arith, ne) in
                subst
                  (λ j.
                    (f : ℕ) × (frame_of (after.1.paging.tables) root (page_address (begin + j))
                      ≡ some f))
                  same (rest.frames (k - 1) e (omega (arith, lt, ne)))
          ];
          others = λ v ne.
              rest.others v (λ k lt e. ne (k + 1) (omega (arith, lt)) (omega (arith, e)))
              ∙ iso.others v (λ e. ne 0 (omega arith) (omega (arith, e)));
        }

    by_failure-HasBacked :
        (r : ℕ × Pmm)
        → Taken (s.paging.pmm) r
        → HasBacked (suc left) i success s (by_failure r (r.0 == pmm_malloc_failed))
    unfolding by_failure Taken
    by_failure-HasBacked (phys, p) (inl (e, same, no_fit)) =
        let z : (phys == pmm_malloc_failed) ≡ true = ground (arith, e) in
        subst (λ b. HasBacked (suc left) i success s (by_failure (phys, p) b)) (sym z)
          record {
            was = λ ne. absurd (ne refl);
            answer = λ ne. absurd (ne refl);
            bitmap = λ ne. absurd (ne refl);
            frames = λ k ne lt. absurd (ne refl);
            others = λ v ne. refl;
          }
    by_failure-HasBacked (phys, p) (inr f) =
        let z : (phys == pmm_malloc_failed) ≡ false = ground (arith, f.at_page, f.inside, ok.few) in
        subst (λ b. HasBacked (suc left) i success s (by_failure (phys, p) b)) (sym z)
          (with_fresh phys p f)

  malloc_from-HasBacked :
      (left i : ℕ) (success : Bool) (s : Vmm) (level : ℕ → ℕ)
      → IsPaged level root (s.paging)
      → IsTree level (s.paging)
      → i + left ≤ 2 ^ 36
      → HasBacked left i success s (malloc_from left i root req_pages begin success s)
  unfolding malloc_from by_failure at pmm_malloc_page
  malloc_from-HasBacked zero i success s level ok tree few =
      let was_true : ((if success then page_address begin else 0) ≢ 0) → success ≡ true = λ ne.
        elim (Bool-cases success) [
          | inl done ↦ done
          | inr failed ↦ absurd (ne (ap (λ b. if b then page_address begin else 0) failed))
        ] in
      record {
        was = was_true;
        answer = λ ne. ap (λ b. if b then page_address begin else 0) (was_true ne);
        bitmap = λ ne. refl;
        frames = λ k ne lt. absurd (omega (arith, lt));
        others = λ v ne. refl;
      }
  malloc_from-HasBacked (suc left) i success s level ok tree few =
      let small : s.paging.pmm.pmm_bitmap.count < 2 ^ 50 = omega (arith, ok.few) in
      let a : Allocated (s.paging.pmm) 1 (pmm_malloc 4096 (s.paging.pmm)) =
        pmm_malloc-Allocated (s.paging.pmm) 4096 (omega arith) (omega arith) small (ok.bytes) in
      by_failure-HasBacked left i success s level ok tree few
        (λ success s level ok tree.
          malloc_from-HasBacked left (i + 1) success s level ok tree (omega (arith, few)))
        (pmm_malloc 4096 (s.paging.pmm))
        (Allocated-Taken (s.paging.pmm) (pmm_malloc 4096 (s.paging.pmm)) a)

-- What a successful call gives, for bit `q` of the bitmap and page `k` of the range.
pub record IsBackedRange (root n : ℕ) (s : Vmm) (q k : ℕ) (r : ℕ × Vmm) : Type 0 where
  pub begin : ℕ
  pub answer : r.0 ≡ page_address begin
  pub fit : IsFirstFit (s.vmm_bitmap.bytes) (s.vmm_bitmap.count) n begin
  pub marked :
      bit_read (r.1.vmm_bitmap.bytes) q
      ≡ (if in_range begin n q then true else bit_read (s.vmm_bitmap.bytes) q)
  pub frame : ℕ
  pub mapped : frame_of (r.1.paging.tables) root (page_address (begin + k)) ≡ some frame

module _ (level : ℕ → ℕ) (root n : ℕ) (s : Vmm) (q k : ℕ) (ok : IsPaged level root (s.paging))
    (tree : IsTree level (s.paging)) (bytes : IsBytes (s.vmm_bitmap.bytes)) (few : n ≤ 2 ^ 36)
    (lt : k < n) where
  malloc_found-IsBackedRange :
      (r : ℕ × Bool)
      → Searched (s.vmm_bitmap.bytes) (s.vmm_bitmap.count) n r
      → (malloc_found root n r s).0 ≢ 0
      → IsBackedRange root n s q k (malloc_found root n r s)
  unfolding malloc_found write_bits_in_range_from
  malloc_found-IsBackedRange (begin, false) found ne = absurd (ne refl)
  malloc_found-IsBackedRange (begin, true) (inr (e, _, _)) ne = absurd (cc)
  malloc_found-IsBackedRange (begin, true) (inl (_, fit)) ne =
      let marked = record s { vmm_bitmap = write_bits_in_range_from (s.vmm_bitmap) n begin true } in
      let back =
        malloc_from-HasBacked root n begin n 0 true marked level ok tree (omega (arith, few)) in
      let (f, e) = back.frames k ne lt in
      let same : 0 + k ≡ k = omega arith in
      record {
        begin = begin;
        answer = back.answer ne;
        fit = fit;
        marked =
            ap (λ b. bit_read (b.bytes) q) (back.bitmap ne)
            ∙ bit_read-write_bits n begin true (s.vmm_bitmap.bytes) q bytes;
        frame = f;
        mapped =
            subst
              (λ j.
                frame_of ((malloc_from n 0 root n begin true marked).1.paging.tables) root
                  (page_address (begin + j))
                ≡ some f)
              same e;
      }

-- When `vmm_malloc_pages` returns an address, that is the address of the first run of free pages
-- that is long enough; exactly the bits of the run are set; and the processor finds a frame at
-- every page `k` of the run. The call is for 2 ^ 36 pages at most, the tables before form levels
-- without large pages (`IsPaged`), and no table is reached by two entries (`IsTree`).
pub vmm_malloc_pages-IsBackedRange :
    (level : ℕ → ℕ) (root byte_amount : ℕ) (s : Vmm) (q k : ℕ)
    → IsPaged level root (s.paging)
    → IsTree level (s.paging)
    → IsBytes (s.vmm_bitmap.bytes)
    → divide_round_up byte_amount page_size ≤ 2 ^ 36
    → k < divide_round_up byte_amount page_size
    → (vmm_malloc_pages root byte_amount s).0 ≢ 0
    → IsBackedRange root
        (divide_round_up byte_amount page_size)
        s
        q
        k
        (vmm_malloc_pages root byte_amount s)
unfolding vmm_malloc_pages
vmm_malloc_pages-IsBackedRange level root byte_amount s q k ok tree bytes few lt ne =
    let n = divide_round_up byte_amount page_size in
    malloc_found-IsBackedRange level root n s q k ok tree bytes few lt
      (find_free_range (s.vmm_bitmap) n)
      (find_free_range-Searched (s.vmm_bitmap) n (omega (arith, lt))) ne
