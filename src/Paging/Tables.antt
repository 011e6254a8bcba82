-- ===== src/Paging/Tables.antt =====
-- One step down the tables of kernel/memory/virtual/paging/paging.cpp: `get_or_create_next_table`.
use esz_os.Base.{
  ℕ, ◌-◌, ◌*◌, ◌/◌, ◌^◌, ◌<◌, ◌≤◌, ◌≡◌, ◌≢◌, ◌⊎◌, inl, inr, refl, arith, true, false, IsBytes, List,
  length, ◌+◌, ◌∙◌,
}
use esz_os.Bitmap.{bit_read}
use esz_os.Bitmap.Search.{HasNoFit}
use esz_os.Pmm.{Pmm, bytes_of, pmm_malloc_failed}
use esz_os.Pmm.Malloc.{Allocated, taken, full}
use esz_os.Paging.{PagingState}
use esz_os.Paging.Lookup.{lookup, IsTree}

abbrev pub count_of : Pmm → ℕ
count_of p = p.pmm_bitmap.count

-- A page that was free and is now in use, and nothing else was given back.
pub record IsFresh (p : Pmm) (addr : ℕ) (p' : Pmm) : Type 0 where
  pub page : ℕ
  pub at_page : addr ≡ page * 4096
  pub inside : page < count_of p
  pub was_free : bit_read (bytes_of p) page ≡ false
  pub now_used : bit_read (bytes_of p') page ≡ true
  pub kept : (q : ℕ) → bit_read (bytes_of p) q ≡ true → bit_read (bytes_of p') q ≡ true
  pub bytes : IsBytes (bytes_of p')
  pub count : count_of p' ≡ count_of p

unfoldable pub Taken : (p : Pmm) → ℕ × Pmm → Type 0
Taken p r =
    ((r.0 ≡ pmm_malloc_failed) × (r.1 ≡ p) × HasNoFit (bytes_of p) (count_of p) 1)
    ⊎ IsFresh p (r.0) (r.1)

pub Allocated-Taken : (p : Pmm) (r : ℕ × Pmm) → Allocated p 1 r → Taken p r
unfolding Taken
Allocated-Taken p r (taken start p' fit bits ok same) = inr record {
  page = start;
  at_page = refl;
  inside = omega (arith, fit.inside);
  was_free = fit.free start (omega arith) (omega arith);
  now_used = ground (arith, bits start);
  kept = λ q e. ground (arith, bits q, e);
  bytes = ok;
  count = same;
}
Allocated-Taken p r (full no_fit) = inl (refl, refl, no_fit)

-- The tables form levels: `root` is on level 4, an entry of a table on a level above 1 leads to a
-- table one level below, and the pages of all tables are in use. `level` is 0 for other pages. No
-- entry above level 1 has the bit of a large page, which would end the processor's walk there.
pub record IsPaged (level : ℕ → ℕ) (root : ℕ) (s : PagingState) : Type 0 where
  pub bytes : IsBytes (bytes_of (s.pmm))
  pub few : count_of (s.pmm) < 2 ^ 40
  pub no_null : level 0 ≡ 0
  pub null_used : bit_read (bytes_of (s.pmm)) 0 ≡ true
  pub top : level root ≡ 4
  pub used : (t : ℕ) → 0 < level t → bit_read (bytes_of (s.pmm)) (t / 4096) ≡ true
  pub fits : (t i : ℕ) → (s.tables t i).address < 2 ^ 40
  pub plain : (t i : ℕ) → 2 ≤ level t → (s.tables t i).page_size_or_pat ≡ false
  pub links :
      (t i : ℕ)
      → 2 ≤ level t
      → (s.tables t i).present ≡ true
      → level ((s.tables t i).address * 4096) ≡ level t - 1

-- What new tables keep: the levels, that no table is reached by two entries, and what the
-- processor finds.
pub record IsKept (level : ℕ → ℕ) (s : PagingState) (level' : ℕ → ℕ) (s' : PagingState)
    : Type 0 where
  pub grows : (t : ℕ) → 0 < level t → level' t ≡ level t
  pub trees : IsTree level s → IsTree level' s'
  pub finds :
      (t : ℕ) (is : List ℕ) (j : ℕ)
      → level t ≡ length is + 1
      → lookup (s'.tables) t is j ≡ lookup (s.tables) t is j

pub IsKept-refl : (level : ℕ → ℕ) (s : PagingState) → IsKept level s level s
IsKept-refl level s = record {
  grows = λ t pos. refl;
  trees = λ tree. tree;
  finds = λ t is j e. refl;
}

pub IsKept-trans :
    (level1 : ℕ → ℕ) (s1 : PagingState) (level2 : ℕ → ℕ) (s2 : PagingState) (level3 : ℕ → ℕ)
    (s3 : PagingState)
    → IsKept level1 s1 level2 s2
    → IsKept level2 s2 level3 s3
    → IsKept level1 s1 level3 s3
IsKept-trans level1 s1 level2 s2 level3 s3 a b = record {
  grows = λ t pos. b.grows t (omega (arith, a.grows t pos, pos)) ∙ a.grows t pos;
  trees = λ tree. b.trees (a.trees tree);
  finds = λ t is j e.
      let e' = a.grows t (omega (arith, e)) in b.finds t is j (e' ∙ e) ∙ a.finds t is j e;
}

-- What a successful step down from entry `idx` of `table` gives.
pub record IsStep (level : ℕ → ℕ) (root table idx : ℕ) (s : PagingState) (next : ℕ)
    (s' : PagingState) : Type 0 where
  pub level' : ℕ → ℕ
  pub paged : IsPaged level' root s'
  pub below : level' next ≡ level table - 1
  pub present : (s'.tables table idx).present ≡ true
  pub leads : (s'.tables table idx).address * 4096 ≡ next
  pub kept : IsKept level s level' s'
  pub keeps : (t i : ℕ) → 0 < level t → t ≢ table → s'.tables t i ≡ s.tables t i
