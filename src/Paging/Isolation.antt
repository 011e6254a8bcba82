-- ===== src/Paging/Isolation.antt =====
-- Mapping or freeing one page leaves the others: `map_page` and `free_page` of
-- kernel/memory/virtual/paging/paging.cpp.
use esz_os.Base.{
  ℕ, ◌+◌, ◌*◌, ◌/◌, ◌%◌, ◌^◌, ◌<◌, ◌≡◌, ◌≢◌, inl, inr, refl, ◌∙◌, ap, ap₂, sym, subst, arith, true,
  false, ◌&&◌, ◌==◌, if◌then◌else◌, Option, none, some, List, [], ◌∷◌, length, Bool-cases,
}
use esz_os.Paging.{
  PageTableEntry, PagingState, PagingFlags, empty_entry, put_entry, mapped_entry,
  handle_read_write_flag, handle_cache_disable_flag, map_found, map_page, free_found, free_page,
  page_walk, get_pml4_index, get_pdpt_index, get_pd_index, get_pt_index,
}
use esz_os.Paging.Tables.{IsPaged, IsKept}
use esz_os.Paging.Lookup.{Tables, lookup, IsTree, upper_path, lookup_absent, lookup_present}
use esz_os.Paging.Walk.{Leads, Walked, WalkResult, page_walk-WalkResult}
use esz_os.Paging.Mapping.{frame_of, follow, changed, put_away, changed-IsPaged}

-- The table at the end of the path `is` from table `t` on.
unfoldable pub Reaches : Tables → ℕ → List ℕ → ℕ → Type 0
Reaches tables t [] last = t ≡ last
Reaches tables t (i ∷ is) last =
    ((tables t i).present ≡ true) × Reaches tables ((tables t i).address * 4096) is last

-- Two paths of one length to one table are one path.
module _ (level : ℕ → ℕ) (root : ℕ) (s : PagingState) (ok : IsPaged level root s)
    (tree : IsTree level s) where
  pub Reaches-unique :
      (t t' : ℕ) (is is' : List ℕ) (last : ℕ)
      → level t ≡ length is + 1
      → level t' ≡ length is' + 1
      → length is ≡ length is'
      → Reaches (s.tables) t is last
      → Reaches (s.tables) t' is' last
      → (t ≡ t') × (is ≡ is')
  unfolding Reaches
  Reaches-unique t t' [] [] last e e' same a a' = (a ∙ sym a', refl)
  Reaches-unique t t' [] (i' ∷ is') last e e' same a a' = absurd (omega (arith, same))
  Reaches-unique t t' (i ∷ is) [] last e e' same a a' = absurd (omega (arith, same))
  Reaches-unique t t' (i ∷ is) (i' ∷ is') last e e' same (p, a) (p', a') =
      let down = ok.links t i (omega (arith, e)) p in
      let down' = ok.links t' i' (omega (arith, e')) p' in
      let (below, rest) =
        Reaches-unique ((s.tables t i).address * 4096) ((s.tables t' i').address * 4096) is is' last
          (omega (arith, down, e)) (omega (arith, down', e')) (omega (arith, same)) a a' in
      let (x, y) =
        tree t i t' i' (omega (arith, e)) (omega (arith, e')) p p' (omega (arith, below)) in
      (x, ap₂ (λ i is. i ∷ is) y rest)

  pub put_entry-lookup :
      (last k : ℕ) (entry : PageTableEntry)
      → level last ≡ 1
      → (t : ℕ) (is : List ℕ) (j : ℕ) → level t ≡ length is + 1
      → (Reaches (s.tables) t is last → j ≢ k)
      → lookup (put_entry (s.tables) last k entry) t is j ≡ lookup (s.tables) t is j
  unfolding lookup put_entry Reaches
  put_entry-lookup last k entry low t [] j e away =
      let ne : (t == last && j == k) ≡ false = elim (Bool-cases (t == last && j == k)) [
        | inl here ↦ absurd (away (ground (arith, here)) (ground (arith, here)))
        | inr away' ↦ away'
      ] in
      ap
        (λ b.
          let x = (if b then entry else s.tables t j) in
          if x.present then some (x.address * 4096) else none)
        ne
  put_entry-lookup last k entry low t (i ∷ is) j e away =
      let same =
        put_away (s.tables) last k entry t i (λ x. absurd (omega (arith, ap level x, low, e))) in
      elim (Bool-cases ((s.tables t i).present)) [
        | inl there ↦
            lookup_present (put_entry (s.tables) last k entry) t i is j
              (ap (λ x. x.present) same ∙ there)
            ∙ ap (λ x. lookup (put_entry (s.tables) last k entry) (x.address * 4096) is j) same
            ∙ put_entry-lookup last k entry low ((s.tables t i).address * 4096) is j
                (omega (arith, ok.links t i (omega (arith, e)) there, e)) (λ r. away (there, r))
            ∙ sym (lookup_present (s.tables) t i is j there)
        | inr gone ↦
            lookup_absent (put_entry (s.tables) last k entry) t i is j
              (ap (λ x. x.present) same ∙ gone)
            ∙ sym (lookup_absent (s.tables) t i is j gone)
      ]

unfoldable follow_all : Tables → List ℕ → Option ℕ → Option ℕ
follow_all tables [] o = o
follow_all tables (i ∷ is) o = follow_all tables is (follow tables i o)

follow_all-none : (tables : Tables) (is : List ℕ) → follow_all tables is none ≡ none
unfolding follow_all follow
follow_all-none tables [] = refl
follow_all-none tables (i ∷ is) = follow_all-none tables is

follow-lookup :
    (tables : Tables) (t : ℕ) (is : List ℕ) (j : ℕ)
    → follow tables j (follow_all tables is (some t)) ≡ lookup tables t is j
unfolding follow_all follow lookup
follow-lookup tables t [] j = refl
follow-lookup tables t (i ∷ is) j = elim (Bool-cases ((tables t i).present)) [
  | inl there ↦
      ap
        (λ b.
          follow tables j
            (follow_all tables is (if b then some ((tables t i).address * 4096) else none)))
        there
      ∙ follow-lookup tables ((tables t i).address * 4096) is j
      ∙ sym (lookup_present tables t i is j there)
  | inr gone ↦
      ap
        (λ b.
          follow tables j
            (follow_all tables is (if b then some ((tables t i).address * 4096) else none)))
        gone
      ∙ ap (follow tables j) (follow_all-none tables is)
      ∙ sym (lookup_absent tables t i is j gone)
]

-- What the processor finds is a lookup along the path of the address.
frame_of-lookup :
    (tables : Tables) (root v : ℕ)
    → frame_of tables root v ≡ lookup tables root (upper_path v) (get_pt_index v)
unfolding frame_of follow_all
frame_of-lookup tables root v = follow-lookup tables root (upper_path v) (get_pt_index v)

-- Two addresses on one page, in what the tables look at.
same_page :
    (v v' : ℕ)
    → upper_path v' ≡ upper_path v
    → get_pt_index v' ≡ get_pt_index v
    → v' / 4096 % 2 ^ 36 ≡ v / 4096 % 2 ^ 36
unfolding get_pml4_index get_pdpt_index get_pd_index get_pt_index
same_page v v' up low =
    let a : v' / 2 ^ 39 % 512 ≡ v / 2 ^ 39 % 512 = ground (arith, up) in
    let b : v' / 2 ^ 30 % 512 ≡ v / 2 ^ 30 % 512 = ground (arith, up) in
    let c : v' / 2 ^ 21 % 512 ≡ v / 2 ^ 21 % 512 = ground (arith, up) in
    let d : v' / 2 ^ 12 % 512 ≡ v / 2 ^ 12 % 512 = low in omega (arith, a, b, c, d)

Leads-Reaches :
    (s : PagingState) (t i next : ℕ) (is : List ℕ) (last : ℕ)
    → Leads s t i next
    → Reaches (s.tables) next is last
    → Reaches (s.tables) t (i ∷ is) last
unfolding Reaches
Leads-Reaches s t i next is last l r =
    (l.present, subst (λ x. Reaches (s.tables) x is last) (sym (l.target)) r)

Walked-Reaches :
    (level0 : ℕ → ℕ) (s0 : PagingState) (level : ℕ → ℕ) (root v last : ℕ) (s : PagingState)
    → Walked level0 s0 level root v last s
    → Reaches (s.tables) root (upper_path v) last
unfolding Reaches
Walked-Reaches level0 s0 level root v last s w =
    Leads-Reaches s root (get_pml4_index v) (w.table1) (get_pdpt_index v ∷ get_pd_index v ∷ []) last
      (w.first)
      (Leads-Reaches s (w.table1) (get_pdpt_index v) (w.table2) (get_pd_index v ∷ []) last
        (w.second) (Leads-Reaches s (w.table2) (get_pd_index v) last [] last (w.third) refl))

-- The state after a page was mapped or freed: levels, no table reached twice, and every other
-- page as before.
pub record Isolated (root v : ℕ) (s s' : PagingState) : Type 0 where
  pub level' : ℕ → ℕ
  pub paged : IsPaged level' root s'
  pub tree : IsTree level' s'
  pub others :
      (v' : ℕ)
      → v' / 4096 % 2 ^ 36 ≢ v / 4096 % 2 ^ 36
      → frame_of (s'.tables) root v' ≡ frame_of (s.tables) root v'

module _ (level : ℕ → ℕ) (root v : ℕ) (s : PagingState) (ok : IsPaged level root s)
    (tree : IsTree level s) where
  finds_others :
      (level' : ℕ → ℕ) (s' : PagingState) (v' : ℕ)
      → IsKept level s level' s'
      → frame_of (s'.tables) root v' ≡ frame_of (s.tables) root v'
  finds_others level' s' v' k =
      frame_of-lookup (s'.tables) root v'
      ∙ k.finds root (upper_path v') (get_pt_index v') (ok.top)
      ∙ sym (frame_of-lookup (s.tables) root v')

  no_page-Isolated :
      (s' : PagingState)
      → (level' : ℕ → ℕ) × IsPaged level' root s' × IsKept level s level' s'
      → Isolated root v s s'
  no_page-Isolated s' (level', paged, k) = record {
    level' = level';
    paged = paged;
    tree = k.trees tree;
    others = λ v' ne. finds_others level' s' v' k;
  }

  changed-Isolated :
      (level' : ℕ → ℕ) (last : ℕ) (s' : PagingState) (w : Walked level s level' root v last s')
      (e : PageTableEntry)
      → e.address < 2 ^ 40
      → Isolated root v s (record s' { tables = put_entry (s'.tables) last (get_pt_index v) e })
  unfolding changed
  changed-Isolated level' last s' w e small =
      let tree' = w.kept.trees tree in
      let tables' = put_entry (s'.tables) last (get_pt_index v) e in
      record {
        level' = level';
        paged = changed-IsPaged level s level' root v last s' w e small;
        tree = λ t i t' i' deep deep' p p' a.
            let same =
              put_away (s'.tables) last (get_pt_index v) e t i
                (λ x. absurd (omega (arith, ap level' x, w.level3, deep))) in
            let same' =
              put_away (s'.tables) last (get_pt_index v) e t' i'
                (λ x. absurd (omega (arith, ap level' x, w.level3, deep'))) in
            tree' t i t' i' deep deep' (ap (λ x. x.present) (sym same) ∙ p)
              (ap (λ x. x.present) (sym same') ∙ p')
              (ap (λ x. x.address) (sym same) ∙ a ∙ ap (λ x. x.address) same');
        others = λ v' ne.
            frame_of-lookup tables' root v'
            ∙ put_entry-lookup level' root s' (w.paged) tree' last (get_pt_index v) e (w.level3)
                root (upper_path v') (get_pt_index v') (w.paged.top)
                (λ r low.
                  let (_, up) =
                    Reaches-unique level' root s' (w.paged) tree' root root (upper_path v')
                      (upper_path v) last (w.paged.top) (w.paged.top) refl r
                      (Walked-Reaches level s level' root v last s' w) in
                  ne (same_page v v' up low))
            ∙ sym (frame_of-lookup (s'.tables) root v')
            ∙ finds_others level' s' v' (w.kept);
      }

  map_found-Isolated :
      (p : ℕ) (flags : PagingFlags) (r : Option (ℕ × ℕ) × PagingState)
      → WalkResult level s root v r
      → Isolated root v s ((map_found p flags r).1)
  unfolding map_found WalkResult mapped_entry handle_read_write_flag handle_cache_disable_flag
  map_found-Isolated p flags (none, s') r = no_page-Isolated s' (r.1, r.2, r.3)
  map_found-Isolated p flags (some (last, i), s') (at, level', w) =
      let e = mapped_entry p flags (s'.tables last i) in
      subst (λ x. Isolated root v s (record s' { tables = put_entry (s'.tables) last x e }))
        (sym at) (changed-Isolated level' last s' w e (omega arith))

  free_found-Isolated :
      (r : Option (ℕ × ℕ) × PagingState)
      → WalkResult level s root v r
      → Isolated root v s ((free_found r).1)
  unfolding free_found WalkResult
  free_found-Isolated (none, s') r = no_page-Isolated s' (r.1, r.2, r.3)
  free_found-Isolated (some (last, i), s') (at, level', w) =
      subst
        (λ x. Isolated root v s (record s' { tables = put_entry (s'.tables) last x empty_entry }))
        (sym at) (changed-Isolated level' last s' w empty_entry (omega arith))

  pub map_page-Isolated :
      (p : ℕ) (flags : PagingFlags) → Isolated root v s ((map_page root v p flags s).1)
  unfolding map_page
  map_page-Isolated p flags =
      map_found-Isolated p flags (page_walk root v s) (page_walk-WalkResult root v s level ok)

  pub free_page-Isolated : Isolated root v s ((free_page root v s).1)
  unfolding free_page
  free_page-Isolated =
      free_found-Isolated (page_walk root v s) (page_walk-WalkResult root v s level ok)
