-- ===== src/Paging/Stepping.antt =====
-- `get_or_create_next_table` of kernel/memory/virtual/paging/paging.cpp.
use esz_os.Base.{
  ℕ, ◌*◌, ◌-◌, ◌/◌, ◌%◌, ◌≢◌, ◌∙◌, ◌^◌, ◌<◌, ◌≤◌, ◌≡◌, ◌⊎◌, inl, inr, refl, ap, sym, subst, arith,
  Bool, true, false, ◌==◌, if◌then◌else◌, u64,
}
use esz_os.Bitmap.Search.{HasNoFit}
use esz_os.Pmm.{Pmm, bytes_of, pmm_malloc, pmm_malloc_page, pmm_malloc_failed}
use esz_os.Pmm.Malloc.{Allocated, pmm_malloc-Allocated}
use esz_os.Paging.{PagingState, enter_table, create_table, get_or_create_next_table}
use esz_os.Paging.Tables.{count_of, Taken, Allocated-Taken, IsFresh, IsPaged, IsStep, IsKept-refl}
use esz_os.Paging.Entering.{
  fresh-level, new_level, new_level_kept, null_lem, used_lem, fits_lem, plain_lem, links_lem,
  entered, entered_here,
}
use esz_os.Paging.Finding.{entered-IsTree, entered-lookup}

module _ (level : ℕ → ℕ) (root table idx : ℕ) (s : PagingState) (ok : IsPaged level root s)
    (high : 2 ≤ level table) where
  present-IsStep :
      (s.tables table idx).present ≡ true
      → IsStep level root table idx s (u64 ((s.tables table idx).address * 2 ^ 12)) s
  present-IsStep p =
      let exact : u64 ((s.tables table idx).address * 2 ^ 12)
          ≡ (s.tables table idx).address * 4096 =
        omega (arith, ok.fits table idx) in
      record {
        level' = level;
        paged = ok;
        below = ap level exact ∙ ok.links table idx high p;
        present = p;
        leads = sym exact;
        kept = IsKept-refl level s;
        keeps = λ t i pos ne. refl;
      }

  module _ (absent : (s.tables table idx).present ≡ false) (fresh : ℕ) (pmm' : Pmm)
      (f : IsFresh (s.pmm) fresh pmm') where
    enter-IsStep :
        IsStep level root table idx s fresh
          (record { pmm = pmm'; tables = enter_table fresh table idx (s.tables) })
    unfolding new_level
    enter-IsStep =
        let tables' = enter_table fresh table idx (s.tables) in
        let apart : table ≢ fresh = λ e.
          absurd
            (omega (arith, ap level e, fresh-level level root table idx s ok high fresh pmm' f)) in
        let (here, leads_to) = entered_here level root table idx s ok high fresh pmm' f apart in
        let small : f.page < 2 ^ 40 = omega (arith, f.inside, ok.few) in
        let exact : fresh / 2 ^ 12 % 2 ^ 40 ≡ f.page = omega (arith, f.at_page) in
        let leads' : (tables' table idx).address * 4096 ≡ fresh =
          omega (arith, leads_to, exact, f.at_page) in
        let at_fresh : new_level level root table idx s ok high fresh pmm' f fresh
            ≡ level table - 1 =
          ground arith in
        record {
          level' = new_level level root table idx s ok high fresh pmm' f;
          paged = record {
            bytes = f.bytes;
            few = omega (arith, f.count, ok.few);
            no_null = (null_lem level root table idx s ok high fresh pmm' f);
            null_used = f.kept 0 (ok.null_used);
            top =
                (new_level_kept level root table idx s ok high fresh pmm' f) root
                  (omega (arith, ok.top))
                ∙ ok.top;
            used = (used_lem level root table idx s ok high fresh pmm' f);
            fits = (fits_lem level root table idx s ok high fresh pmm' f);
            plain = (plain_lem level root table idx s ok high fresh pmm' f);
            links = (links_lem level root table idx s ok high fresh pmm' f);
          };
          below = at_fresh;
          present = here;
          leads = leads';
          kept = record {
            grows = new_level_kept level root table idx s ok high fresh pmm' f;
            trees = entered-IsTree level root table idx s ok high absent fresh pmm' f;
            finds = entered-lookup level root table idx s ok high absent fresh pmm' f;
          };
          keeps = λ t i pos ne.
              entered level root table idx s ok high fresh pmm' f t i
                (λ e. absurd (
                  omega
                    (arith, ap level e, fresh-level level root table idx s ok high fresh pmm' f)))
                ne;
        }

  -- A step down finds or makes the next table, or there is no free page.
  unfoldable pub Stepped : ℕ × PagingState → Type 0
  Stepped r =
      IsStep level root table idx s (r.0) (r.1)
      ⊎ ((r.0 ≡ 0) × (r.1 ≡ s) × HasNoFit (bytes_of (s.pmm)) (count_of (s.pmm)) 1)

  create_table-Stepped :
      (s.tables table idx).present ≡ false
      → (r : ℕ × Pmm) → Taken (s.pmm) r
      → Stepped (create_table table idx r s)
  unfolding create_table Taken Stepped
  create_table-Stepped absent (fresh, pmm') (inl (e, same, no_fit)) =
      let z : (fresh == pmm_malloc_failed) ≡ true = ground (arith, e) in
      rw z (inr (refl, ap (λ p. record s { pmm = p }) same, no_fit))
  create_table-Stepped absent (fresh, pmm') (inr f) =
      let z : (fresh == pmm_malloc_failed) ≡ false = ground (arith, f.at_page, f.inside, ok.few) in
      rw z (inl (enter-IsStep absent fresh pmm' f))

  by_present : Bool → ℕ × PagingState
  by_present b =
      if b
      then (u64 ((s.tables table idx).address * 2 ^ 12), s)
      else create_table table idx (pmm_malloc 4096 (s.pmm)) s

  get_or_create_next_table_lem :
      get_or_create_next_table table idx s ≡ by_present ((s.tables table idx).present)
  unfolding get_or_create_next_table pmm_malloc_page by_present
  get_or_create_next_table_lem = refl

  by_present-Stepped : (b : Bool) → (s.tables table idx).present ≡ b → Stepped (by_present b)
  unfolding by_present Stepped
  by_present-Stepped true p = inl (present-IsStep p)
  by_present-Stepped false absent =
      let small : count_of (s.pmm) < 2 ^ 50 = omega (arith, ok.few) in
      let a : Allocated (s.pmm) 1 (pmm_malloc 4096 (s.pmm)) =
        pmm_malloc-Allocated (s.pmm) 4096 (omega arith) (omega arith) small (ok.bytes) in
      create_table-Stepped absent (pmm_malloc 4096 (s.pmm))
        (Allocated-Taken (s.pmm) (pmm_malloc 4096 (s.pmm)) a)

  pub get_or_create_next_table-Stepped : Stepped (get_or_create_next_table table idx s)
  get_or_create_next_table-Stepped =
      subst Stepped (sym get_or_create_next_table_lem)
        (by_present-Stepped ((s.tables table idx).present) refl)
