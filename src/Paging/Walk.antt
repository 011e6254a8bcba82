-- ===== src/Paging/Walk.antt =====
-- `page_walk` of kernel/memory/virtual/paging/paging.cpp.
use esz_os.Base.{
  ℕ, ◌*◌, ◌<◌, ◌≤◌, ◌≡◌, ◌≢◌, inl, inr, refl, ◌∙◌, ap, sym, subst, arith, Bool, true, false, ◌==◌,
  if◌then◌else◌, Option, none, some,
}
use esz_os.Bitmap.Search.{HasNoFit}
use esz_os.Pmm.{bytes_of}
use esz_os.Paging.{
  PagingState, get_or_create_next_table, page_walk, get_pml4_index, get_pdpt_index, get_pd_index,
  get_pt_index,
}
use esz_os.Paging.Tables.{count_of, IsPaged, IsStep, IsKept, IsKept-refl, IsKept-trans}
use esz_os.Paging.Stepping.{Stepped, get_or_create_next_table-Stepped}

-- Entry `i` of table `t` leads to `next`.
pub record Leads (s : PagingState) (t i next : ℕ) : Type 0 where
  pub present : (s.tables t i).present ≡ true
  pub target : (s.tables t i).address * 4096 ≡ next

-- The three upper entries of an address lead down to the table `last`, in a state made from `s0`.
pub record Walked (level0 : ℕ → ℕ) (s0 : PagingState) (level : ℕ → ℕ) (root address last : ℕ)
    (s : PagingState) : Type 0 where
  pub table1 : ℕ
  pub table2 : ℕ
  pub first : Leads s root (get_pml4_index address) table1
  pub second : Leads s table1 (get_pdpt_index address) table2
  pub third : Leads s table2 (get_pd_index address) last
  pub level1 : level table1 ≡ 3
  pub level2 : level table2 ≡ 2
  pub level3 : level last ≡ 1
  pub paged : IsPaged level root s
  pub kept : IsKept level0 s0 level s

unfoldable pub NoPage : PagingState → Type 0
NoPage s = HasNoFit (bytes_of (s.pmm)) (count_of (s.pmm)) 1

-- A later step on another level keeps what an entry leads to.
step-Leads :
    (level : ℕ → ℕ) (root table idx : ℕ) (s : PagingState) (next : ℕ) (s' : PagingState)
    → IsStep level root table idx s next s'
    → (t i n : ℕ) → 0 < level t
    → t ≢ table
    → Leads s t i n
    → Leads s' t i n
step-Leads level root table idx s next s' st t i n pos ne l =
    let same = st.keeps t i pos ne in
    record {
      present = ap (λ x. x.present) same ∙ l.present;
      target = ap (λ x. x.address * 4096) same ∙ l.target;
    }

IsStep-ne-zero :
    (level : ℕ → ℕ) (root table idx : ℕ) (s : PagingState) (next : ℕ) (s' : PagingState)
    → IsStep level root table idx s next s'
    → 2 ≤ level table
    → next ≢ 0
IsStep-ne-zero level root table idx s next s' st high =
    λ e. absurd (omega (arith, ap (st.level') e, st.paged.no_null, st.below))

-- What a walk gives: a way down to the table of the entry, or there is no free page.
unfoldable pub WalkResult : (ℕ → ℕ) → PagingState → ℕ → ℕ → Option (ℕ × ℕ) × PagingState → Type 0
unfolding NoPage
WalkResult level0 s0 root address (none, s) =
    NoPage s × (level : ℕ → ℕ) × IsPaged level root s × IsKept level0 s0 level s
WalkResult level0 s0 root address (some (last, i), s) =
    (i ≡ get_pt_index address) × (level : ℕ → ℕ) × Walked level0 s0 level root address last s

walk_third :
    (level0 : ℕ → ℕ) (s0 : PagingState) (root address : ℕ) (level : ℕ → ℕ) (t1 t2 : ℕ)
    (s s' : PagingState) (t3 : ℕ)
    → Leads s root (get_pml4_index address) t1
    → Leads s t1 (get_pdpt_index address) t2
    → level t1 ≡ 3
    → level t2 ≡ 2
    → IsPaged level root s
    → IsKept level0 s0 level s
    → IsStep level root t2 (get_pd_index address) s t3 s'
    → (level' : ℕ → ℕ) × Walked level0 s0 level' root address t3 s'
walk_third level0 s0 root address level t1 t2 s s' t3 l1 l2 e1 e2 ok k st = (
  st.level',
  record {
    table1 = t1;
    table2 = t2;
    first =
        step-Leads level root t2 (get_pd_index address) s t3 s' st root (get_pml4_index address) t1
          (omega (arith, ok.top)) (λ e. absurd (omega (arith, ap level e, ok.top, e2))) l1;
    second =
        step-Leads level root t2 (get_pd_index address) s t3 s' st t1 (get_pdpt_index address) t2
          (omega (arith, e1)) (λ e. absurd (omega (arith, ap level e, e1, e2))) l2;
    third = record { present = st.present; target = st.leads };
    level1 = st.kept.grows t1 (omega (arith, e1)) ∙ e1;
    level2 = st.kept.grows t2 (omega (arith, e2)) ∙ e2;
    level3 = omega (arith, st.below, e2);
    paged = st.paged;
    kept = IsKept-trans level0 s0 level s (st.level') s' k (st.kept);
  },
)

module _ (root address : ℕ) (s : PagingState) where
  step1 : ℕ × PagingState
  step1 = get_or_create_next_table root (get_pml4_index address) s

  step2 : ℕ × PagingState
  unfolding step1
  step2 = get_or_create_next_table (step1.0) (get_pdpt_index address) (step1.1)

  step3 : ℕ × PagingState
  unfolding step2
  step3 = get_or_create_next_table (step2.0) (get_pd_index address) (step2.1)

  by_failure : Bool → Bool → Bool → Option (ℕ × ℕ) × PagingState
  by_failure f1 f2 f3 =
      if f1
      then (none, step1.1)
      else if f2
      then (none, step2.1)
      else if f3
      then (none, step3.1)
      else (some (step3.0, get_pt_index address), step3.1)

  page_walk_lem : page_walk root address s ≡ by_failure (step1.0 == 0) (step2.0 == 0) (step3.0 == 0)
  unfolding page_walk by_failure step1 step2 step3
  page_walk_lem = refl

  module _ (level : ℕ → ℕ) (ok : IsPaged level root s) where
    failed :
        (level' : ℕ → ℕ) (n : ℕ) (s1 s2 : PagingState)
        → IsPaged level' root s1
        → IsKept level s level' s1
        → (n ≡ 0) × (s2 ≡ s1) × NoPage s1
        → WalkResult level s root address (none, s2)
    unfolding WalkResult
    failed level' n s1 s2 paged k (_, same, no_fit) =
        subst (λ x. NoPage x × (l : ℕ → ℕ) × IsPaged l root x × IsKept level s l x) (sym same)
          (no_fit, level', paged, k)

    third_result :
        (level2 : ℕ → ℕ)
        → IsPaged level2 root (step2.1)
        → IsKept level s level2 (step2.1)
        → Leads (step2.1) root (get_pml4_index address) (step1.0)
        → Leads (step2.1) (step1.0) (get_pdpt_index address) (step2.0)
        → level2 (step1.0) ≡ 3
        → level2 (step2.0) ≡ 2
        → WalkResult level s root address (by_failure false false (step3.0 == 0))
    unfolding by_failure Stepped step3 NoPage WalkResult
    third_result level2 paged k l1 l2 e1 e2 =
        elim (get_or_create_next_table-Stepped level2 root (step2.0) (get_pd_index address)
          (step2.1) paged (omega (arith, e2))) [
            | inl st ↦
                let ne =
                  IsStep-ne-zero level2 root (step2.0) (get_pd_index address) (step2.1) (step3.0)
                    (step3.1) st (omega (arith, e2)) in
                let z : (step3.0 == 0) ≡ false = ground (arith, ne) in
                subst (λ b. WalkResult level s root address (by_failure false false b)) (sym z)
                  (let (level3, walked) =
                      walk_third level s root address level2 (step1.0) (step2.0) (step2.1) (step3.1)
                        (step3.0) l1 l2 e1 e2 paged k st in
                    (refl, level3, walked))
            | inr f ↦
                let (e, _, _) = f in
                let z : (step3.0 == 0) ≡ true = ground (arith, e) in
                subst (λ b. WalkResult level s root address (by_failure false false b)) (sym z)
                  (failed level2 (step3.0) (step2.1) (step3.1) paged k f)
          ]

    second_result :
        (level1 : ℕ → ℕ)
        → IsPaged level1 root (step1.1)
        → IsKept level s level1 (step1.1)
        → Leads (step1.1) root (get_pml4_index address) (step1.0)
        → level1 (step1.0) ≡ 3
        → WalkResult level s root address (by_failure false (step2.0 == 0) (step3.0 == 0))
    unfolding by_failure Stepped step2 NoPage
    second_result level1 paged k l1 e1 =
        elim (get_or_create_next_table-Stepped level1 root (step1.0) (get_pdpt_index address)
          (step1.1) paged (omega (arith, e1))) [
            | inl st ↦
                let ne =
                  IsStep-ne-zero level1 root (step1.0) (get_pdpt_index address) (step1.1) (step2.0)
                    (step2.1) st (omega (arith, e1)) in
                let z : (step2.0 == 0) ≡ false = ground (arith, ne) in
                let kept =
                  step-Leads level1 root (step1.0) (get_pdpt_index address) (step1.1) (step2.0)
                    (step2.1) st root (get_pml4_index address) (step1.0) (omega (arith, paged.top))
                    (λ e. absurd (omega (arith, ap level1 e, paged.top, e1))) l1 in
                subst (λ b. WalkResult level s root address (by_failure false b (step3.0 == 0)))
                  (sym z)
                  (third_result (st.level') (st.paged)
                    (IsKept-trans level s level1 (step1.1) (st.level') (step2.1) k (st.kept)) kept
                    (record { present = st.present; target = st.leads })
                    (st.kept.grows (step1.0) (omega (arith, e1)) ∙ e1)
                    (omega (arith, st.below, e1)))
            | inr f ↦
                let (e, _, _) = f in
                let z : (step2.0 == 0) ≡ true = ground (arith, e) in
                subst (λ b. WalkResult level s root address (by_failure false b (step3.0 == 0)))
                  (sym z) (failed level1 (step2.0) (step1.1) (step2.1) paged k f)
          ]

    first_result :
        WalkResult level s root address (by_failure (step1.0 == 0) (step2.0 == 0) (step3.0 == 0))
    unfolding by_failure Stepped step1 NoPage
    first_result =
        elim (get_or_create_next_table-Stepped level root root (get_pml4_index address) s ok
          (omega (arith, ok.top))) [
            | inl st ↦
                let ne =
                  IsStep-ne-zero level root root (get_pml4_index address) s (step1.0) (step1.1) st
                    (omega (arith, ok.top)) in
                let z : (step1.0 == 0) ≡ false = ground (arith, ne) in
                subst
                  (λ b.
                    WalkResult level s root address (by_failure b (step2.0 == 0) (step3.0 == 0)))
                  (sym z)
                  (second_result (st.level') (st.paged) (st.kept)
                    (record { present = st.present; target = st.leads })
                    (omega (arith, st.below, ok.top)))
            | inr f ↦
                let (e, _, _) = f in
                let z : (step1.0 == 0) ≡ true = ground (arith, e) in
                subst
                  (λ b.
                    WalkResult level s root address (by_failure b (step2.0 == 0) (step3.0 == 0)))
                  (sym z) (failed level (step1.0) s (step1.1) ok (IsKept-refl level s) f)
          ]

    -- A walk finds or makes the way down to an entry, and keeps the levels, or there is no free page.
    pub page_walk-WalkResult : WalkResult level s root address (page_walk root address s)
    page_walk-WalkResult = subst (WalkResult level s root address) (sym page_walk_lem) first_result
