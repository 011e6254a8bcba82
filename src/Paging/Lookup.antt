-- ===== src/Paging/Lookup.antt =====
-- What the processor finds at an address, as a path down the tables that
-- kernel/memory/virtual/paging/paging.cpp builds.
use esz_os.Base.{
  ℕ, ◌*◌, ◌≤◌, ◌≡◌, ap, true, false, if◌then◌else◌, Option, none, some, List, [], ◌∷◌,
}
use esz_os.Paging.{PageTableEntry, PagingState, get_pml4_index, get_pdpt_index, get_pd_index}

abbrev pub Tables : Type 0
Tables = ℕ → ℕ → PageTableEntry

-- The frame that entry `j` gives at the end of the path `is` from table `t` on.
unfoldable pub lookup : Tables → ℕ → List ℕ → ℕ → Option ℕ
lookup tables t [] j = if (tables t j).present then some ((tables t j).address * 4096) else none
lookup tables t (i ∷ is) j = elim ((tables t i).present) [
  | true ↦ lookup tables ((tables t i).address * 4096) is j
  | false ↦ none
]

-- The three upper indices of an address.
abbrev pub upper_path : ℕ → List ℕ
upper_path v = get_pml4_index v ∷ get_pdpt_index v ∷ get_pd_index v ∷ []

-- No table is reached by two entries.
abbrev pub IsTree : (ℕ → ℕ) → PagingState → Type 0
IsTree level s =
    (t i t' i' : ℕ)
    → 2 ≤ level t
    → 2 ≤ level t'
    → (s.tables t i).present ≡ true
    → (s.tables t' i').present ≡ true
    → (s.tables t i).address ≡ (s.tables t' i').address
    → (t ≡ t') × (i ≡ i')

pub lookup_absent :
    (tables : Tables) (t i : ℕ) (is : List ℕ) (j : ℕ)
    → (tables t i).present ≡ false
    → lookup tables t (i ∷ is) j ≡ none
unfolding lookup
lookup_absent tables t i is j e =
    ap (λ b. elim b [ true ↦ lookup tables ((tables t i).address * 4096) is j | false ↦ none ]) e

pub lookup_present :
    (tables : Tables) (t i : ℕ) (is : List ℕ) (j : ℕ)
    → (tables t i).present ≡ true
    → lookup tables t (i ∷ is) j ≡ lookup tables ((tables t i).address * 4096) is j
unfolding lookup
lookup_present tables t i is j e =
    ap (λ b. elim b [ true ↦ lookup tables ((tables t i).address * 4096) is j | false ↦ none ]) e
