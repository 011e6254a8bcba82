-- ===== src/Paging/Mapping.antt =====
-- `map_page` and `free_page` of kernel/memory/virtual/paging/paging.cpp, against what the
-- processor does with the tables.
use esz_os.Base.{
  ℕ, ◌*◌, ◌/◌, ◌%◌, ◌^◌, ◌<◌, ◌≤◌, ◌≡◌, ◌≢◌, inl, inr, refl, ◌∙◌, ap, sym, subst, arith, Bool, true,
  false, ◌&&◌, ◌==◌, if◌then◌else◌, Option, none, some, Bool-cases,
}
use esz_os.Paging.{
  PageTableEntry, PagingState, PagingFlags, empty_entry, put_entry, mapped_entry, map_found,
  map_page, free_found, free_page, page_walk, get_pml4_index, get_pdpt_index, get_pd_index,
  get_pt_index, handle_read_write_flag, handle_cache_disable_flag,
}
use esz_os.Paging.Lookup.{Tables}
use esz_os.Paging.Tables.{IsPaged}
use esz_os.Paging.Walk.{Leads, Walked, WalkResult, NoPage, page_walk-WalkResult}

-- One level of the processor's own walk, and all four: the page frame of an address. A page is one
-- of 4 KiB here: `IsPaged` says that no upper entry stands for a large page.
unfoldable pub follow : Tables → ℕ → Option ℕ → Option ℕ
follow tables i none = none
follow tables i (some t) = if (tables t i).present then some ((tables t i).address * 4096) else none

unfoldable pub frame_of : Tables → ℕ → ℕ → Option ℕ
unfolding follow
frame_of tables root v = follow tables (get_pt_index v) (
    follow tables (get_pd_index v)
      (follow tables (get_pdpt_index v) (follow tables (get_pml4_index v) (some root))))

pub put_here : (tables : Tables) (t i : ℕ) (e : PageTableEntry) → put_entry tables t i e t i ≡ e
unfolding put_entry
put_here tables t i e = let z : (t == t && i == i) ≡ true = ground arith in rw z refl

pub put_away :
    (tables : Tables) (t i : ℕ) (e : PageTableEntry) (t' i' : ℕ)
    → t' ≢ t
    → put_entry tables t i e t' i' ≡ tables t' i'
unfolding put_entry
put_away tables t i e t' i' ne =
    let z : (t' == t && i' == i) ≡ false = ground (arith, ne) in rw z refl

-- A changed entry of the lowest table keeps the way down to it.
module _ (level0 : ℕ → ℕ) (s0 : PagingState) (level : ℕ → ℕ) (root v last : ℕ) (s : PagingState)
    (w : Walked level0 s0 level root v last s) (e : PageTableEntry) where
  unfoldable pub changed : Tables
  changed = put_entry (s.tables) last (get_pt_index v) e

  follow-changed :
      (t i next : ℕ) → 2 ≤ level t → Leads s t i next → follow changed i (some t) ≡ some next
  unfolding follow changed
  follow-changed t i next high l =
      let ne : t ≢ last = λ k. absurd (omega (arith, ap level k, w.level3)) in
      let same = put_away (s.tables) last (get_pt_index v) e t i ne in
      let p : (changed t i).present ≡ true = ap (λ x. x.present) same ∙ l.present in
      let a : (changed t i).address * 4096 ≡ next = ap (λ x. x.address * 4096) same ∙ l.target in
      ap (λ b. if b then some ((changed t i).address * 4096) else none) p ∙ ap some a

  frame_of-changed : frame_of changed root v ≡ (if e.present then some (e.address * 4096) else none)
  unfolding frame_of changed
  frame_of-changed =
      let a =
        follow-changed root (get_pml4_index v) (w.table1) (omega (arith, w.paged.top)) (w.first) in
      let b =
        follow-changed (w.table1) (get_pdpt_index v) (w.table2) (omega (arith, w.level1))
          (w.second) in
      let c = follow-changed (w.table2) (get_pd_index v) last (omega (arith, w.level2)) (w.third) in
      let down : follow changed (get_pd_index v)
            (follow changed (get_pdpt_index v) (follow changed (get_pml4_index v) (some root)))
          ≡ some last =
        ap (λ x. follow changed (get_pd_index v) (follow changed (get_pdpt_index v) x)) a
        ∙ ap (follow changed (get_pd_index v)) b
        ∙ c in
      ap (follow changed (get_pt_index v)) down ∙ last_step
    where
      last_step :
          follow changed (get_pt_index v) (some last)
          ≡ (if e.present then some (e.address * 4096) else none)
      last_step =
          ap (λ (x : PageTableEntry). if x.present then some (x.address * 4096) else none)
            (put_here (s.tables) last (get_pt_index v) e)

  pub changed-IsPaged : e.address < 2 ^ 40 → IsPaged level root (record s { tables = changed })
  unfolding changed put_entry
  changed-IsPaged small = record {
    bytes = w.paged.bytes;
    few = w.paged.few;
    no_null = w.paged.no_null;
    null_used = w.paged.null_used;
    top = w.paged.top;
    used = w.paged.used;
    fits = λ t i. elim (Bool-cases (t == last && i == get_pt_index v)) [
      | inl here ↦ rw here small
      | inr away ↦ rw away (w.paged.fits t i)
    ];
    plain = λ t i high.
        let ne : t ≢ last = λ k. absurd (omega (arith, ap level k, w.level3)) in
        ap (λ x. x.page_size_or_pat) (put_away (s.tables) last (get_pt_index v) e t i ne)
        ∙ w.paged.plain t i high;
    links = λ t i high p.
        let ne : t ≢ last = λ k. absurd (omega (arith, ap level k, w.level3)) in
        let same = put_away (s.tables) last (get_pt_index v) e t i ne in
        ap (λ x. level (x.address * 4096)) same
        ∙ w.paged.links t i high (ap (λ x. x.present) (sym same) ∙ p);
  }

-- What is promised of mapping: `true` with the frame mapped, or `false` as no page is free.
unfoldable pub MapResult : ℕ → ℕ → ℕ → Bool × PagingState → Type 0
unfolding frame_of NoPage
MapResult root v p (true, s) =
    (frame_of (s.tables) root v ≡ some (p / 4096 * 4096)) × (level : ℕ → ℕ) × IsPaged level root s
MapResult root v p (false, s) = NoPage s

map_found-MapResult :
    (level0 : ℕ → ℕ) (s0 : PagingState) (root v p : ℕ) (flags : PagingFlags)
    (r : Option (ℕ × ℕ) × PagingState)
    → p < 2 ^ 52
    → WalkResult level0 s0 root v r
    → MapResult root v p (map_found p flags r)
unfolding map_found MapResult WalkResult mapped_entry handle_read_write_flag
    handle_cache_disable_flag changed
map_found-MapResult level0 s0 root v p flags (none, s) small r = r.0
map_found-MapResult level0 s0 root v p flags (some (last, i), s) small (at, level, w) =
    let e = mapped_entry p flags (s.tables last i) in
    let exact : p / 2 ^ 12 % 2 ^ 40 * 4096 ≡ p / 4096 * 4096 = omega arith in
    let mapped = frame_of-changed level0 s0 level root v last s w e ∙ ap some exact in
    let paged = changed-IsPaged level0 s0 level root v last s w e (omega arith) in
    (
      subst (λ x. frame_of (put_entry (s.tables) last x e) root v ≡ some (p / 4096 * 4096)) (sym at)
          mapped,
      level,
      subst (λ x. IsPaged level root (record s { tables = put_entry (s.tables) last x e })) (sym at)
          paged,
    )

-- After `map_page` says true, the processor finds the page of the physical address at the virtual
-- address, and the tables are again in levels; it says false only if no physical page is free.
-- The tables before form levels without large pages (`IsPaged`), as those after do, and the physical
-- address is below 2 ^ 52.
pub map_page-MapResult :
    (level : ℕ → ℕ) (root v p : ℕ) (flags : PagingFlags) (s : PagingState)
    → IsPaged level root s
    → p < 2 ^ 52
    → MapResult root v p (map_page root v p flags s)
unfolding map_page
map_page-MapResult level root v p flags s ok small =
    map_found-MapResult level s root v p flags (page_walk root v s) small
      (page_walk-WalkResult root v s level ok)

unfoldable pub FreeResult : ℕ → ℕ → Bool × PagingState → Type 0
unfolding frame_of NoPage
FreeResult root v (true, s) =
    (frame_of (s.tables) root v ≡ none) × (level : ℕ → ℕ) × IsPaged level root s
FreeResult root v (false, s) = NoPage s

free_found-FreeResult :
    (level0 : ℕ → ℕ) (s0 : PagingState) (root v : ℕ) (r : Option (ℕ × ℕ) × PagingState)
    → WalkResult level0 s0 root v r
    → FreeResult root v (free_found r)
unfolding free_found FreeResult WalkResult changed
free_found-FreeResult level0 s0 root v (none, s) r = r.0
free_found-FreeResult level0 s0 root v (some (last, i), s) (at, level, w) =
    let gone = frame_of-changed level0 s0 level root v last s w empty_entry in
    let paged = changed-IsPaged level0 s0 level root v last s w empty_entry (omega arith) in
    (
      subst (λ x. frame_of (put_entry (s.tables) last x empty_entry) root v ≡ none) (sym at) gone,
      level,
      subst
          (λ x. IsPaged level root (record s { tables = put_entry (s.tables) last x empty_entry }))
          (sym at) paged,
    )

-- After `free_page` says true, the processor finds nothing at the virtual address, and the tables
-- are again in levels; it says false only if no physical page is free for a table on the way. The
-- tables before form levels without large pages (`IsPaged`), as those after do.
pub free_page-FreeResult :
    (level : ℕ → ℕ) (root v : ℕ) (s : PagingState)
    → IsPaged level root s
    → FreeResult root v (free_page root v s)
unfolding free_page
free_page-FreeResult level root v s ok =
    free_found-FreeResult level s root v (page_walk root v s)
      (page_walk-WalkResult root v s level ok)
