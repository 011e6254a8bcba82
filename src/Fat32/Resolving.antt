-- ===== src/Fat32/Resolving.antt =====
-- `find_entry` of kernel/storage/filesystem/fat32/fat32.cpp, against the tree of directories.
use esz_os.Base.{
  ℕ, zero, suc, ◌+◌, ◌<◌, ◌≤◌, ◌≡◌, ◌⊎◌, inl, inr, refl, ◌∙◌, ap, sym, subst, arith, Bool, true,
  false, ◌&&◌, ◌||◌, ◌==◌, if◌then◌else◌, Buffer, Option, none, some, List, [], ◌∷◌, Bool-cases,
  eq_or_ne, ltb,
}
use esz_os.Str.{str_equal}
use esz_os.Edit.{str_split}
use esz_os.Fat32.{Fat32Context}
use esz_os.Fat32.Directory.{
  Entry, clear_entry, read_dir_entries, first_index, is_directory_named, resolve,
}

-- `j` is the first index below `count` that passes the test.
pub record IsFirst (test : ℕ → Bool) (count j : ℕ) : Type 0 where
  pub inside : j < count
  pub passes : test j ≡ true
  pub first : (k : ℕ) → k < j → test k ≡ false

unfoldable pub Searched : (ℕ → Bool) → ℕ → ℕ → Option ℕ → Type 0
Searched test left i none = (k : ℕ) → i ≤ k → k < i + left → test k ≡ false
Searched test left i (some j) =
    (i ≤ j) × (j < i + left) × (test j ≡ true) × ((k : ℕ) → i ≤ k → k < j → test k ≡ false)

pub first_index-Searched :
    (left i : ℕ) (test : ℕ → Bool) → Searched test left i (first_index left i test)
unfolding first_index Searched
first_index-Searched zero i test = λ k le lt. absurd (omega (arith, le, lt))
first_index-Searched (suc left) i test = elim (Bool-cases (test i)) [
  | inl yes_here ↦
      subst (Searched test (suc left) i)
        (sym (ap (λ b. if b then some i else first_index left (i + 1) test) yes_here))
        (omega arith, omega arith, yes_here, λ k le lt. absurd (omega (arith, le, lt)))
  | inr not_here ↦
      subst (Searched test (suc left) i)
        (sym (ap (λ b. if b then some i else first_index left (i + 1) test) not_here))
        (later (first_index left (i + 1) test) not_here (first_index-Searched left (i + 1) test))
]
  where
    later :
        (o : Option ℕ)
        → test i ≡ false
        → Searched test left (i + 1) o
        → Searched test (suc left) i o
    later none not_here s = λ k le lt. elim (eq_or_ne k i) [
      | inl e ↦ ap test e ∙ not_here
      | inr ne ↦ s k (omega (arith, le, ne)) (omega (arith, lt))
    ]
    later (some j) not_here (le, lt, holds, before) = (
      omega (arith, le),
      omega (arith, lt),
      holds,
      λ k a b. elim (eq_or_ne k i) [
        | inl e ↦ ap test e ∙ not_here
        | inr ne ↦ before k (omega (arith, a, ne)) b
      ],
    )

IsFirst-unique :
    (test : ℕ → Bool) (count j k : ℕ) → IsFirst test count j → IsFirst test count k → j ≡ k
IsFirst-unique test count j k a b = elim (eq_or_ne j k) [
  | inl e ↦ e
  | inr ne ↦ elim (Bool-cases (ltb j k)) [
    | inl lt ↦
        let below : test j ≡ false = b.first j (ground (arith, lt)) in
        absurd (ground (arith, below, a.passes))
    | inr ge ↦
        let below : test k ≡ false = a.first k (ground (arith, ge, ne)) in
        absurd (ground (arith, below, b.passes))
  ]
]

-- Entry `j` has the name; it is a directory of the name.
abbrev pub has_name : (ℕ → Entry) → Buffer → ℕ → Bool
has_name entries section j = str_equal (entries j).name section

abbrev pub is_directory_of_name : (ℕ → Entry) → Buffer → ℕ → Bool
is_directory_of_name entries section j =
    (entries j).is_directory && str_equal (entries j).name section

-- A path without the slash in front.
abbrev pub relative : Buffer → Buffer
relative path = if path 0 == 47 then (λ i. path (1 + i)) else path

module _ (disk : Buffer) (context : Fat32Context) (fresh stack : Buffer) where
  abbrev listing : ℕ → (ℕ → Entry) × ℕ
  listing cluster = read_dir_entries disk context fresh stack cluster

  -- The sections lead from the directory in `cluster` to the entry: every section but the last
  -- names the first directory of that name, and the last the first entry of that name.
  unfoldable pub Resolves : ℕ → List Buffer → Entry → Type 0
  Resolves cluster [] e = ⊥
  Resolves cluster (section ∷ []) e =
      let (entries, count) = listing cluster in
      (j : ℕ) × IsFirst (has_name entries section) count j
      × (e ≡ record (entries j) { found = true })
  Resolves cluster (section ∷ next ∷ rest) e =
      let (entries, count) = listing cluster in
      (j : ℕ) × IsFirst (is_directory_of_name entries section) count j
      × Resolves ((entries j).first_cluster) (next ∷ rest) e

  -- The entry is found and the sections lead to it, or it is not and they lead nowhere.
  unfoldable pub IsResolved : ℕ → List Buffer → Entry → Type 0
  unfolding Resolves
  IsResolved cluster sections e =
      ((e.found ≡ true) × Resolves cluster sections e)
      ⊎ ((e.found ≡ false) × (¬ ((other : Entry) × Resolves cluster sections other)))

  below :
      (cluster : ℕ) (section next : Buffer) (rest : List Buffer) (o : Option ℕ)
      → ((c : ℕ) → IsResolved c (next ∷ rest) (resolve disk context fresh stack (next ∷ rest) c))
      → Searched (is_directory_named ((listing cluster).0) section) ((listing cluster).1) 0 o
      → IsResolved cluster (section ∷ next ∷ rest) (elim o [
        | none ↦ clear_entry
        | some j ↦
            resolve disk context fresh stack (next ∷ rest) (((listing cluster).0 j).first_cluster)
      ])
  unfolding Searched IsResolved
  below cluster section next rest none rest_of s = inr (
    refl,
    λ found.
        let (other, r) = found in
        let (j, first, deeper) = r in
        absurd (ground (arith, s j (omega arith) (omega (arith, first.inside)), first.passes)),
  )
  below cluster section next rest (some j) rest_of (le, lt, holds, before) =
      let here : IsFirst (is_directory_named ((listing cluster).0) section) ((listing cluster).1)
          j =
        record {
          inside = omega (arith, lt);
          passes = holds;
          first = λ k b. before k (omega arith) b;
        } in
      elim (rest_of (((listing cluster).0 j).first_cluster)) [
        | inl r ↦ let (found, deeper) = r in inl (found, (j, here, deeper))
        | inr r ↦
            let (missing, nowhere) = r in
            inr (
              missing,
              λ found.
                  let (other, path) = found in
                  let (k, first, deeper) = path in
                  let same =
                    IsFirst-unique (is_directory_named ((listing cluster).0) section)
                      ((listing cluster).1) k j first here in
                  nowhere (
                    other,
                    subst
                        (λ i. Resolves (((listing cluster).0 i).first_cluster) (next ∷ rest) other)
                        same deeper,
                  ),
            )
      ]

abbrev pub is_root : Buffer → Bool
is_root path = relative path 0 == 0 || (relative path 0 == 47 && relative path 1 == 0)

-- What is promised of find_entry: the root directory for a path of at most two slashes, and
-- otherwise where the sections of the path lead from the root directory, without the first slash.
abbrev pub IsEntryAt : Buffer → Fat32Context → Buffer → Buffer → Buffer → Entry → Type 0
IsEntryAt disk context fresh stack path e =
    ((is_root path ≡ true)
      × (e.found ≡ true)
      × (e.is_directory ≡ true)
      × (e.first_cluster ≡ context.root_cluster))
    ⊎ ((is_root path ≡ false)
        × IsResolved disk context fresh stack (context.root_cluster)
            ((str_split fresh (relative path) b'/').0) e)
