-- ===== src/Paging/Finding.antt =====
-- What a new table of kernel/memory/virtual/paging/paging.cpp changes of what the processor finds.
use esz_os.Base.{
  ℕ, ◌+◌, ◌*◌, ◌^◌, ◌<◌, ◌≤◌, ◌≡◌, ◌≢◌, ◌⊎◌, inl, inr, ◌∙◌, ap, ap₂, sym, subst, arith, true, false,
  ◌&&◌, ◌==◌, if◌then◌else◌, none, some, List, [], ◌∷◌, length, Bool-cases, eq_or_ne,
}
use esz_os.Pmm.{Pmm}
use esz_os.Paging.{PageTableEntry, PagingState, enter_table}
use esz_os.Paging.Tables.{IsFresh, IsPaged}
use esz_os.Paging.Entering.{
  fresh-level, new_level, old_level, entered, entered_fresh, entered_other, entered_here,
}
use esz_os.Paging.Lookup.{Tables, lookup, IsTree, lookup_absent, lookup_present}

module _ (level : ℕ → ℕ) (root table idx : ℕ) (s : PagingState) (ok : IsPaged level root s)
    (high : 2 ≤ level table) where
  module _ (absent : (s.tables table idx).present ≡ false) (fresh : ℕ) (pmm' : Pmm)
      (f : IsFresh (s.pmm) fresh pmm') where
    abbrev pub tables' : Tables
    tables' = enter_table fresh table idx (s.tables)

    apart : (t : ℕ) → 0 < level t → t ≢ fresh
    apart t pos e =
        absurd
          (omega (arith, ap level e, fresh-level level root table idx s ok high fresh pmm' f, pos))

    same_entry :
        (t i : ℕ) → 0 < level t → ((t == table && i == idx) ≡ false) → tables' t i ≡ s.tables t i
    same_entry t i pos ne = elim (eq_or_ne t table) [
      | inr away ↦ entered level root table idx s ok high fresh pmm' f t i (apart t pos) away
      | inl here ↦
          let other : i ≢ idx = ground (arith, ne, here) in
          subst (λ x. tables' x i ≡ s.tables x i) (sym here)
            (entered_other level root table idx s ok high fresh pmm' f i
              (apart table (omega (arith, high))) other)
    ]

    empty_below : (is : List ℕ) (j : ℕ) → lookup tables' fresh is j ≡ none
    unfolding lookup
    empty_below [] j =
        let e =
          entered_fresh level root table idx s ok high fresh pmm' f j
            (λ k. apart table (omega (arith, high)) (sym k)) in
        ap (λ (x : PageTableEntry). if x.present then some (x.address * 4096) else none) e
    empty_below (i ∷ is) j =
        let e =
          entered_fresh level root table idx s ok high fresh pmm' f i
            (λ k. apart table (omega (arith, high)) (sym k)) in
        lookup_absent tables' fresh i is j (ap (λ x. x.present) e)

    to_fresh : (is : List ℕ) (j : ℕ) → lookup tables' table (idx ∷ is) j ≡ none
    to_fresh is j =
        let (here, leads_to) =
          entered_here level root table idx s ok high fresh pmm' f
            (apart table (omega (arith, high))) in
        let small : f.page < 2 ^ 40 = omega (arith, f.inside, ok.few) in
        let back : (tables' table idx).address * 4096 ≡ fresh =
          omega (arith, leads_to, f.at_page) in
        lookup_present tables' table idx is j here
        ∙ ap (λ x. lookup tables' x is j) back
        ∙ empty_below is j

    same_lookup :
        (t i : ℕ) (is : List ℕ) (j : ℕ)
        → tables' t i ≡ s.tables t i
        → (((s.tables t i).present ≡ true)
            → lookup tables' ((s.tables t i).address * 4096) is j
              ≡ lookup (s.tables) ((s.tables t i).address * 4096) is j)
        → lookup tables' t (i ∷ is) j ≡ lookup (s.tables) t (i ∷ is) j
    same_lookup t i is j same below = elim (Bool-cases ((s.tables t i).present)) [
      | inl there ↦
          lookup_present tables' t i is j (ap (λ x. x.present) same ∙ there)
          ∙ ap (λ x. lookup tables' (x.address * 4096) is j) same
          ∙ below there
          ∙ sym (lookup_present (s.tables) t i is j there)
      | inr gone ↦
          lookup_absent tables' t i is j (ap (λ x. x.present) same ∙ gone)
          ∙ sym (lookup_absent (s.tables) t i is j gone)
    ]

    -- A new table changes nothing of what the processor finds.
    pub entered-lookup :
        (t : ℕ) (is : List ℕ) (j : ℕ)
        → level t ≡ length is + 1
        → lookup tables' t is j ≡ lookup (s.tables) t is j
    unfolding lookup
    entered-lookup t [] j e =
        let far : t ≢ table = λ k. absurd (omega (arith, ap level k, high, e)) in
        let ne : (t == table && j == idx) ≡ false = ground (arith, far) in
        ap (λ (x : PageTableEntry). if x.present then some (x.address * 4096) else none)
          (same_entry t j (omega (arith, e)) ne)
    entered-lookup t (i ∷ is) j e = elim (Bool-cases (t == table && i == idx)) [
      | inl here ↦
          let at_t : t ≡ table = ground (arith, here) in
          let at_i : i ≡ idx = ground (arith, here) in
          let gone : (s.tables t i).present ≡ false =
            ap₂ (λ x y. (s.tables x y).present) at_t at_i ∙ absent in
          ap₂ (λ x y. lookup tables' x (y ∷ is) j) at_t at_i
          ∙ to_fresh is j
          ∙ sym (lookup_absent (s.tables) t i is j gone)
      | inr away ↦ same_lookup t i is j (same_entry t i (omega (arith, e)) away) (λ there.
          let down = ok.links t i (omega (arith, e)) there in
          entered-lookup ((s.tables t i).address * 4096) is j (omega (arith, down, e)))
    ]

    -- An entry that is present is the new one or an old one.
    new_or_old :
        (t i : ℕ)
        → 2 ≤ new_level level root table idx s ok high fresh pmm' f t
        → (tables' t i).present ≡ true
        → ((t ≡ table) × (i ≡ idx)) ⊎ ((2 ≤ level t) × (tables' t i ≡ s.tables t i))
    new_or_old t i deep p =
        let ne : t ≢ fresh = λ e.
          let gone : (tables' t i).present ≡ false =
            ap (λ x. (tables' x i).present) e
            ∙ ap (λ x. x.present)
                (entered_fresh level root table idx s ok high fresh pmm' f i
                  (λ k. apart table (omega (arith, high)) (sym k))) in
          absurd (ground (arith, gone, p)) in
        let deep' = old_level level root table idx s ok high fresh pmm' f t ne deep in
        elim (Bool-cases (t == table && i == idx)) [
          | inl here ↦ inl (ground (arith, here), ground (arith, here))
          | inr away ↦ inr (deep', same_entry t i (omega (arith, deep')) away)
        ]

    -- No old entry leads to the new table.
    not_old :
        (t i : ℕ)
        → 2 ≤ level t
        → tables' t i ≡ s.tables t i
        → (tables' t i).present ≡ true
        → (tables' t i).address ≢ (tables' table idx).address
    not_old t i deep same p e =
        let (here, leads_to) =
          entered_here level root table idx s ok high fresh pmm' f
            (apart table (omega (arith, high))) in
        let there : (s.tables t i).present ≡ true = ap (λ x. x.present) (sym same) ∙ p in
        let down = ok.links t i deep there in
        let small : f.page < 2 ^ 40 = omega (arith, f.inside, ok.few) in
        let back : (s.tables t i).address * 4096 ≡ fresh =
          omega (arith, ap (λ x. x.address) same, e, leads_to, f.at_page) in
        apart ((s.tables t i).address * 4096) (omega (arith, down, deep)) back

    -- A new table keeps that no table is reached by two entries.
    pub entered-IsTree :
        IsTree level s
        → IsTree
            (new_level level root table idx s ok high fresh pmm' f)
            (record { pmm = pmm'; tables = tables' })
    entered-IsTree tree t i t' i' deep deep' p p' e = elim (new_or_old t i deep p) [
      | inl here ↦
          let (a, b) = here in
          let e' = sym e ∙ ap₂ (λ x y. (tables' x y).address) a b in
          elim (new_or_old t' i' deep' p') [
            | inl here' ↦ let (a', b') = here' in (a ∙ sym a', b ∙ sym b')
            | inr old ↦ let (d, same) = old in absurd (not_old t' i' d same p' e')
          ]
      | inr old ↦
          let (d, same) = old in
          elim (new_or_old t' i' deep' p') [
            | inl here ↦
                let (a, b) = here in
                absurd (not_old t i d same p (e ∙ ap₂ (λ x y. (tables' x y).address) a b))
            | inr old' ↦
                let (d', same') = old' in
                tree t i t' i' d d' (ap (λ x. x.present) (sym same) ∙ p)
                  (ap (λ x. x.present) (sym same') ∙ p')
                  (ap (λ x. x.address) (sym same) ∙ e ∙ ap (λ x. x.address) same')
          ]
    ]
