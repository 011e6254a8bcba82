-- ===== src/Paging/Entering.antt =====
-- Following an entry, and entering a new table above the next level: the two branches of
-- `get_or_create_next_table` of kernel/memory/virtual/paging/paging.cpp.
use esz_os.Base.{
  ℕ, ◌-◌, ◌*◌, ◌/◌, ◌%◌, ◌^◌, ◌<◌, ◌≤◌, ◌≡◌, ◌≢◌, inl, inr, refl, ◌∙◌, ap, sym, subst, arith, true,
  false, ◌&&◌, ◌==◌, if◌then◌else◌, Bool-cases, eq_or_ne,
}
use esz_os.Bitmap.{bit_read}
use esz_os.Pmm.{Pmm, bytes_of}
use esz_os.Paging.{PagingState, empty_entry, put_entry, clear_table, enter_table}
use esz_os.Paging.Tables.{IsFresh, IsPaged}

module _ (level : ℕ → ℕ) (root table idx : ℕ) (s : PagingState) (ok : IsPaged level root s)
    (high : 2 ≤ level table) where
  module _ (fresh : ℕ) (pmm' : Pmm) (f : IsFresh (s.pmm) fresh pmm') where
    pub fresh-level : level fresh ≡ 0
    fresh-level = elim (eq_or_ne (level fresh) 0) [
      | inl z ↦ z
      | inr ne ↦
          let page : fresh / 4096 ≡ f.page = omega (arith, f.at_page) in
          let in_use : bit_read (bytes_of (s.pmm)) (f.page) ≡ true =
            ap (bit_read (bytes_of (s.pmm))) (sym page) ∙ ok.used fresh (omega arith) in
          absurd (ground (arith, in_use, f.was_free))
    ]

    -- The levels with the new table.
    unfoldable pub new_level : ℕ → ℕ
    new_level t = if t == fresh then level table - 1 else level t

    pub new_level_kept : (t : ℕ) → 0 < level t → new_level t ≡ level t
    unfolding new_level
    new_level_kept t pos =
        let ne : t ≢ fresh = λ e. absurd (omega (arith, ap level e, fresh-level)) in
        ground (arith, ne)

    pub entered :
        (t i : ℕ)
        → t ≢ fresh
        → t ≢ table
        → enter_table fresh table idx (s.tables) t i ≡ s.tables t i
    unfolding enter_table put_entry clear_table
    entered t i a b =
        let x : (t == fresh) ≡ false = ground (arith, a) in
        let y : (t == table && i == idx) ≡ false = ground (arith, b) in rw (y, x) refl

    pub entered_fresh :
        (i : ℕ) → fresh ≢ table → enter_table fresh table idx (s.tables) fresh i ≡ empty_entry
    unfolding enter_table put_entry clear_table
    entered_fresh i ne =
        let x : (fresh == fresh) ≡ true = ground arith in
        let y : (fresh == table && i == idx) ≡ false = ground (arith, ne) in rw (y, x) refl

    pub entered_other :
        (i : ℕ)
        → table ≢ fresh
        → i ≢ idx
        → enter_table fresh table idx (s.tables) table i ≡ s.tables table i
    unfolding enter_table put_entry clear_table
    entered_other i ne other =
        let x : (table == fresh) ≡ false = ground (arith, ne) in
        let y : (table == table && i == idx) ≡ false = ground (arith, other) in rw (y, x) refl

    pub entered_here :
        (table ≢ fresh)
        → ((enter_table fresh table idx (s.tables) table idx).present ≡ true)
          × ((enter_table fresh table idx (s.tables) table idx).address ≡ fresh / 2 ^ 12 % 2 ^ 40)
    unfolding enter_table put_entry clear_table
    entered_here ne =
        let y : (table == table && idx == idx) ≡ true = ground arith in rw y (refl, refl)

    pub null_lem : new_level 0 ≡ 0
    unfolding new_level
    null_lem =
        let page : f.page ≢ 0 =
          λ e. ground (arith, ap (bit_read (bytes_of (s.pmm))) e, f.was_free, ok.null_used) in
        let ne : 0 ≢ fresh = λ e. page (omega (arith, f.at_page, e)) in
        let x : (0 == fresh) ≡ false = ground (arith, ne) in rw x (ok.no_null)

    pub used_lem : (t : ℕ) → 0 < new_level t → bit_read (bytes_of pmm') (t / 4096) ≡ true
    unfolding new_level
    used_lem t pos = elim (eq_or_ne t fresh) [
      | inl e ↦
          let page : f.page ≡ t / 4096 = omega (arith, f.at_page, e) in
          ap (bit_read (bytes_of pmm')) (sym page) ∙ f.now_used
      | inr ne ↦ f.kept (t / 4096) (ok.used t (ground (arith, ne, pos)))
    ]

    pub fits_lem : (t i : ℕ) → (enter_table fresh table idx (s.tables) t i).address < 2 ^ 40
    unfolding enter_table put_entry clear_table
    fits_lem t i = elim (Bool-cases (t == table && i == idx)) [
      | inl here ↦ rw here (omega arith)
      | inr away ↦ elim (Bool-cases (t == fresh)) [
        | inl new ↦ rw (away, new) (omega arith)
        | inr old ↦ rw (away, old) (ok.fits t i)
      ]
    ]

    pub plain_lem :
        (t i : ℕ)
        → 2 ≤ new_level t
        → (enter_table fresh table idx (s.tables) t i).page_size_or_pat ≡ false
    unfolding enter_table put_entry clear_table new_level
    plain_lem t i deep =
        let apart : (table == fresh) ≡ false = elim (Bool-cases (table == fresh)) [
          | inl e ↦ absurd (ground (arith, e, fresh-level, high))
          | inr ne ↦ ne
        ] in
        elim (Bool-cases (t == table && i == idx)) [
          | inl here ↦ rw (here, apart) (ok.plain table idx high)
          | inr away ↦ elim (Bool-cases (t == fresh)) [
            | inl new ↦ rw (away, new) refl
            | inr old ↦ rw (away, old) (ok.plain t i (ground (arith, old, deep)))
          ]
        ]

    -- A link of the old tables still leads one level down.
    old_link :
        (t i : ℕ)
        → t ≢ fresh
        → 2 ≤ level t
        → (s.tables t i).present ≡ true
        → new_level ((s.tables t i).address * 4096) ≡ new_level t - 1
    old_link t i ne deep p =
        let down = ok.links t i deep p in
        new_level_kept ((s.tables t i).address * 4096) (omega (arith, down))
        ∙ down
        ∙ ap (λ n. n - 1) (sym (new_level_kept t (omega arith)))

    pub old_level : (t : ℕ) → t ≢ fresh → 2 ≤ new_level t → 2 ≤ level t
    unfolding new_level
    old_level t ne deep = ground (arith, ne, deep)

    fresh_below : new_level fresh ≡ new_level table - 1
    unfolding new_level
    fresh_below =
        let apart : table ≢ fresh = λ e. absurd (omega (arith, ap level e, fresh-level)) in
        ground (arith, apart)

    table_link :
        (i : ℕ)
        → table ≢ fresh
        → (enter_table fresh table idx (s.tables) table i).present ≡ true
        → new_level ((enter_table fresh table idx (s.tables) table i).address * 4096)
          ≡ new_level table - 1
    table_link i apart p = elim (eq_or_ne i idx) [
      | inl e ↦
          let (here, leads_to) = entered_here apart in
          let small : f.page < 2 ^ 40 = omega (arith, f.inside, ok.few) in
          let back : (enter_table fresh table idx (s.tables) table idx).address * 4096 ≡ fresh =
            omega (arith, leads_to, f.at_page) in
          ap (λ x. new_level ((enter_table fresh table idx (s.tables) table x).address * 4096)) e
          ∙ ap new_level back
          ∙ fresh_below
      | inr other ↦
          let same = entered_other i apart other in
          ap (λ x. new_level (x.address * 4096)) same
          ∙ old_link table i apart high (ap (λ x. x.present) (sym same) ∙ p)
    ]

    pub links_lem :
        (t i : ℕ)
        → 2 ≤ new_level t
        → (enter_table fresh table idx (s.tables) t i).present ≡ true
        → new_level ((enter_table fresh table idx (s.tables) t i).address * 4096) ≡ new_level t - 1
    links_lem t i deep p =
        let apart : table ≢ fresh = λ e. absurd (omega (arith, ap level e, fresh-level)) in
        elim (eq_or_ne t fresh) [
          | inl e ↦
              let none_there : (enter_table fresh table idx (s.tables) t i).present ≡ false =
                subst (λ x. (enter_table fresh table idx (s.tables) x i).present ≡ false) (sym e)
                  (ap (λ x. x.present) (entered_fresh i (λ k. apart (sym k)))) in
              absurd (ground (arith, none_there, p))
          | inr ne ↦
              let deep' : 2 ≤ level t = old_level t ne deep in
              elim (eq_or_ne t table) [
                | inr away ↦
                    let same = entered t i ne away in
                    ap (λ x. new_level (x.address * 4096)) same
                    ∙ old_link t i ne deep' (ap (λ x. x.present) (sym same) ∙ p)
                | inl e ↦
                    subst
                      (λ x.
                        new_level ((enter_table fresh table idx (s.tables) x i).address * 4096)
                        ≡ new_level x - 1)
                      (sym e)
                      (table_link i apart (
                        subst (λ x. (enter_table fresh table idx (s.tables) x i).present ≡ true) e
                          p))
              ]
        ]
