-- ===== src/Heap/Coalesced.antt =====
-- The invariant of kernel/memory/heap/heap.cpp that no two free blocks touch.
use esz_os.Base.{
  ℕ, ◌+◌, ◌≤◌, ◌≡◌, ◌≢◌, refl, Bool, true, false, ◌&&◌, not, Option, some, ltb, List, [], ◌∷◌, ◌++◌,
  arith, ap, sym, subst, ◌⊎◌, inl, inr, Bool-cases,
}
use esz_os.Heap.{Header, block, Heap, malloc, free}
use esz_os.Heap.Layout.{extent, IsHeap}
use esz_os.Heap.Malloc.{fits, serve, Malloced, got, refused, malloc-Malloced}
use esz_os.Heap.Free.{merge_right, merge_left, release, free-release}

-- No two free blocks are neighbours, and the first is not free if `free_before` says so.
abbrev pub CoalescedAfter : Bool → List Header → Type 0
CoalescedAfter free_before [] = Unit {0}
CoalescedAfter free_before (b ∷ bs) =
    ((free_before && not b.used) ≡ false) × CoalescedAfter (not b.used) bs

abbrev pub Coalesced : List Header → Type 0
Coalesced bs = CoalescedAfter false bs

CoalescedAfter-weaken : (f : Bool) (bs : List Header) → CoalescedAfter true bs → CoalescedAfter f bs
CoalescedAfter-weaken f [] c = tt
CoalescedAfter-weaken f (b ∷ bs) (e, c) = (ground arith, c)

pub fit-parts : (size : ℕ) (b : Header) → fits size b ≡ true → (size ≤ b.length) × (b.used ≡ false)
fit-parts size b fit = ground arith

pub idle_eq : (b : Header) → b.used ≡ false → block b.length false ≡ b
idle_eq b idle = ap (block b.length) (sym idle)

serve-CoalescedAfter :
    (f : Bool) (size : ℕ) (before : List Header) (b : Header) (after : List Header)
    → fits size b ≡ true
    → CoalescedAfter f (before ++ (b ∷ after))
    → CoalescedAfter f (before ++ (serve size b ++ after))
unfolding serve
serve-CoalescedAfter f size (x ∷ before) b after fit (e, c) =
    (e, serve-CoalescedAfter (not x.used) size before b after fit c)
serve-CoalescedAfter f size [] b after fit (e, c) =
    let (_, idle) = fit-parts size b fit in
    let c' : CoalescedAfter true after = rw idle at c in
    elim (Bool-cases (ltb (size + 16) b.length)) [
      | inl wide ↦ rw wide (ground arith, (refl, c'))
      | inr narrow ↦ rw narrow (ground arith, CoalescedAfter-weaken false after c')
    ]

-- What merging with the block behind leaves: a free block, and nothing free behind it.
merge_right-CoalescedAfter :
    (b : Header) (after : List Header)
    → b.used ≡ false
    → CoalescedAfter false after
    → (c : Header) × (rest : List Header) × (merge_right b after ≡ c ∷ rest)
      × (c.used ≡ false)
      × CoalescedAfter true rest
unfolding merge_right
merge_right-CoalescedAfter b [] idle c = (b, [], refl, idle, tt)
merge_right-CoalescedAfter b (r ∷ rest) idle (_, c) = elim (Bool-cases r.used) [
  | inl busy ↦ (b, r ∷ rest, simp busy, idle, (ground arith, c))
  | inr free' ↦ (block (b.length + (r.length + 8)) b.used, rest, simp free', idle, rw free' at c)
]

release-CoalescedAfter :
    (f : Bool) (before : List Header) (b : Header) (after : List Header)
    → b.used ≡ true
    → (before ≡ []) × (f ≡ false) ⊎ (before ≢ [])
    → CoalescedAfter f (before ++ (b ∷ after))
    → CoalescedAfter f (release before b after)
unfolding release merge_left
release-CoalescedAfter f [] b after busy (inr ne) c = absurd (ne refl)
release-CoalescedAfter f [] b after busy (inl (_, no_free)) (_, c) =
    let (m, rest, e, idle, good) =
      merge_right-CoalescedAfter (block b.length false) after refl (rw busy at c) in
    rw e (ground arith, rw idle good)
release-CoalescedAfter f (l ∷ []) b after busy _ (first, (_, c)) =
    let (m, rest, e, idle, good) =
      merge_right-CoalescedAfter (block b.length false) after refl (rw busy at c) in
    rw e (elim (Bool-cases l.used) [
      | inl used ↦ simp used (ground arith, (ground arith, rw idle good))
      | inr free' ↦ simp free' (ground arith, good)
    ])
release-CoalescedAfter f (l ∷ l' ∷ ls) b after busy _ (first, c) =
    (first, release-CoalescedAfter (not l.used) (l' ∷ ls) b after busy (inr (cc)) c)

pub record IsWellFormed (h : Heap) (bs : List Header) : Type 0 where
  pub is_heap : IsHeap h bs
  pub coalesced : Coalesced bs

-- A call that returned `p` and left a well-formed heap.
abbrev pub Returns : Option (ℕ × Heap) → Type 0
Returns r = (p : ℕ) × (h' : Heap) × (bs' : List Header) × (r ≡ some (p, h')) × IsWellFormed h' bs'

Malloced-Returns :
    (h : Heap) (size : ℕ) (bs : List Header) {r : Option (ℕ × Heap)}
    → IsWellFormed h bs
    → Malloced h size bs r
    → Returns r
Malloced-Returns h size bs w (refused _) = (0, h, bs, refl, w)
Malloced-Returns h size bs w (got before b after h' f is starts frame) = (
  _,
  h',
  before ++ (serve size b ++ after),
  refl,
  record {
    is_heap = is;
    coalesced =
        serve-CoalescedAfter false size before b after f.fit (subst Coalesced f.cut w.coalesced);
  },
)

-- `malloc` returns on every well-formed heap, and keeps it well-formed: the blocks cover the heap
-- and no two free ones touch.
pub malloc-IsWellFormed :
    (h : Heap) (size : ℕ) (bs : List Header) → IsWellFormed h bs → Returns (malloc size h)
malloc-IsWellFormed h size bs w = Malloced-Returns h size bs w (malloc-Malloced h size bs w.is_heap)

start_cases : (before : List Header) → (before ≡ []) × (false ≡ false) ⊎ (before ≢ [])
start_cases [] = inl (refl, refl)
start_cases (x ∷ before) = inr (cc)

-- `free` of the payload of a block in use returns on every well-formed heap, and keeps it
-- well-formed.
pub free-IsWellFormed :
    (h : Heap) (before : List Header) (b : Header) (after : List Header)
    → IsWellFormed h (before ++ (b ∷ after))
    → b.used ≡ true
    → (h' : Heap) × (free (h.heap_start + extent before + 8) h ≡ some h')
      × IsWellFormed h' (release before b after)
free-IsWellFormed h before b after w busy =
    let (h', done, is, _) = free-release h before b after w.is_heap in
    (
      h',
      done,
      record {
        is_heap = is;
        coalesced =
            release-CoalescedAfter false before b after busy (start_cases before) w.coalesced;
      },
    )
