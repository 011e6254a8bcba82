-- ===== src/Heap/Free.antt =====
-- `free` of kernel/memory/heap/heap.cpp refines the merging of free neighbours on the list of blocks.
use esz_os.Base.{
  ℕ, zero, suc, ◌+◌, ◌-◌, ◌^◌, ◌≤◌, ◌<◌, ◌≡◌, refl, Bool, true, false, Option, some, if◌then◌else◌,
  List, [], ◌∷◌, ◌++◌, arith, ◌∙◌, ap, sym, subst, ◌⊎◌, inl, inr, Bool-cases, lt→ltb, le→leb,
}
use mathlib.Core.List.{append_assoc}
use esz_os.Heap.{
  Header, block, Heap, at, null, u63, fuel_for, write_header, put_header, get_next_heap_block,
  prev_loop, get_prev_heap_block, join_right, join_left, try_defragment_page, free,
}
use esz_os.Heap.Layout.{
  Chain, extent, IsHeap, Chain-extent, Chain-before, Chain-after, Chain-replace, extent-append,
}

-- A block takes in the free block behind it.
unfoldable pub merge_right : Header → List Header → List Header
merge_right b [] = b ∷ []
merge_right b (r ∷ rest) =
    if r.used then b ∷ r ∷ rest else block (b.length + (r.length + 8)) b.used ∷ rest

-- A free block takes in the first of the blocks behind it.
unfoldable pub merge_left : Header → List Header → List Header
merge_left l [] = l ∷ []
merge_left l (b ∷ rest) =
    if l.used then l ∷ b ∷ rest else block (l.length + (b.length + 8)) l.used ∷ rest

-- The block `b` between `before` and `after` becomes free and merges with its neighbours.
unfoldable pub release : List Header → Header → List Header → List Header
release [] b after = merge_right (block b.length false) after
release (l ∷ []) b after = merge_left l (merge_right (block b.length false) after)
release (l ∷ l' ∷ ls) b after = l ∷ release (l' ∷ ls) b after

snoc-cases :
    (xs : List Header) → (xs ≡ []) ⊎ ((ls : List Header) × (l : Header) × (xs ≡ ls ++ l ∷ []))
snoc-cases [] = inl refl
snoc-cases (x ∷ xs) = elim (snoc-cases xs) [
  | inl e ↦ inr ([], x, ap (λ r. x ∷ r) e)
  | inr (ls, l, e) ↦ inr (x ∷ ls, l, ap (λ r. x ∷ r) e)
]

release-snoc :
    (ls : List Header) (l b : Header) (after : List Header)
    → release (ls ++ l ∷ []) b after ≡ ls ++ merge_left l (merge_right (block b.length false) after)
unfolding release
release-snoc [] l b after = refl
release-snoc (x ∷ []) l b after = refl
release-snoc (x ∷ y ∷ ls) l b after = ap (λ r. x ∷ r) (release-snoc (y ∷ ls) l b after)

-- A header that covers exactly the blocks that it replaces.
put_header-IsHeap :
    (h : Heap) (before mid after : List Header) (n : ℕ) (u : Bool)
    → IsHeap h (before ++ (mid ++ after))
    → extent mid ≡ 8 + n
    → IsHeap
        (put_header h (h.heap_start + extent before) (block n u))
        (before ++ (block n u ∷ after))
unfolding write_header
put_header-IsHeap h before mid after n u is same =
    let q = h.heap_start + extent before in
    record {
      chain =
          Chain-replace h.header (write_header h.header q (block n u)) h.heap_start h.heap_end
            before mid (block n u ∷ []) after is.chain (ground arith, omega arith)
            (λ a outside. ground arith);
      started = is.started;
      filled = is.filled;
      small = is.small;
    }

module _ (h : Heap) (before : List Header) (b : Header) (after : List Header)
    (is : IsHeap h (before ++ (b ∷ after))) where
  here : h.header (h.heap_start + extent before) ≡ b
  here = (Chain-after h.header h.heap_start h.heap_end before (b ∷ after) is.chain).0

  behind : Chain h.header (h.heap_start + extent before + 8 + b.length) h.heap_end after
  behind = (Chain-after h.header h.heap_start h.heap_end before (b ∷ after) is.chain).1

-- The two halves of `try_defragment_page` at known headers.
module _ (h : Heap) (p q : ℕ) (b c : Header) (first : h.header p ≡ b) (second : h.header q ≡ c)
    (idle : c.used ≡ false) (small : b.length + (c.length + 8) < 2 ^ 63) where
  merged_small : u63 (b.length + (c.length + 8)) ≡ b.length + (c.length + 8)
  merged_small = omega arith

  join_right-merge :
      q ≡ p + 8 + b.length
      → q < h.heap_end
      → join_right h p ≡ put_header h p (block (b.length + (c.length + 8)) b.used)
  unfolding join_right get_next_heap_block
  join_right-merge e below = rw (first, ← e, second, idle, lt→ltb _ _ below, merged_small)

module _ (h : Heap) (p q : ℕ) (l b : Header) (first : h.header p ≡ l) (second : h.header q ≡ b)
    (le : h.heap_start ≤ p) (small : l.length + (b.length + 8) < 2 ^ 63) where
  join_left-merge :
      l.used ≡ false
      → join_left h q (at p) ≡ some (put_header h p (block (l.length + (b.length + 8)) false))
  unfolding join_left
  join_left-merge idle =
      let fits : u63 (l.length + (b.length + 8)) ≡ l.length + (b.length + 8) = omega arith in
      rw (first, second, idle, le→leb _ _ le, fits)

  join_left-keep : l.used ≡ true → join_left h q (at p) ≡ some h
  unfolding join_left
  join_left-keep busy = rw (first, busy, le→leb _ _ le)

join_right-IsHeap :
    (h : Heap) (before : List Header) (b : Header) (after : List Header)
    → IsHeap h (before ++ (b ∷ after))
    → IsHeap (join_right h (h.heap_start + extent before)) (before ++ merge_right b after)
unfolding join_right get_next_heap_block merge_right
join_right-IsHeap h before b [] is =
    let first = here h before b [] is in
    let last = behind h before b [] is in
    let q = h.heap_start + extent before in let e : join_right h q ≡ h = ground arith in rw e is
join_right-IsHeap h before b (r ∷ rest) is =
    let q = h.heap_start + extent before in
    let first = here h before b (r ∷ rest) is in
    let (second, tail) = behind h before b (r ∷ rest) is in
    let ends = Chain-extent h.header (q + 8 + b.length + 8 + r.length) h.heap_end rest tail in
    elim (Bool-cases r.used) [
      | inl busy ↦ let e : join_right h q ≡ h = ground arith in simp (e, busy) is
      | inr idle ↦
          let n = b.length + (r.length + 8) in
          let e : join_right h q ≡ put_header h q (block n b.used) =
            join_right-merge h q (q + 8 + b.length) b r first second idle (omega arith) refl
              (omega arith) in
          simp (e, idle) (put_header-IsHeap h before (b ∷ r ∷ []) rest n b.used is (omega arith))
    ]

-- The walk from a block of the chain `ls ++ l ∷ []` stops at its last block.
prev_loop-at :
    (fuel : ℕ) (h : Heap) (p curr : ℕ) (ls : List Header) (l : Header)
    → Chain h.header p curr (ls ++ l ∷ [])
    → h.heap_start ≤ p
    → curr - p < fuel
    → prev_loop fuel h curr p ≡ at (p + extent ls)
unfolding prev_loop get_next_heap_block
prev_loop-at zero h p curr ls l c le enough = absurd (omega arith)
prev_loop-at (suc fuel) h p curr [] l (first, last) le enough = ground arith
prev_loop-at (suc fuel) h p curr (x ∷ ls) l (first, c) le enough =
    let ends = Chain-extent h.header (p + 8 + x.length) curr (ls ++ l ∷ []) c in
    let more = extent-append ls (l ∷ []) in
    ground (arith, prev_loop-at fuel h (p + 8 + x.length) curr ls l c (omega arith) (omega arith))

join_left-IsHeap :
    (h : Heap) (before : List Header) (l b : Header) (after : List Header)
    → IsHeap h (before ++ (l ∷ b ∷ after))
    → (h' : Heap) × (join_left h
          (h.heap_start + extent before + 8 + l.length)
          (at (h.heap_start + extent before))
        ≡ some h')
      × IsHeap h' (before ++ merge_left l (b ∷ after))
      × (h'.heap_start ≡ h.heap_start)
unfolding join_left merge_left
join_left-IsHeap h before l b after is =
    let p = h.heap_start + extent before in
    let first = here h before l (b ∷ after) is in
    let (second, tail) = behind h before l (b ∷ after) is in
    let ends = Chain-extent h.header (p + 8 + l.length + 8 + b.length) h.heap_end after tail in
    elim (Bool-cases l.used) [
      | inl busy ↦ (
        h,
        join_left-keep h p _ l b first second (omega arith) (omega arith) busy,
        simp busy is,
        refl,
      )
      | inr idle ↦
          let n = l.length + (b.length + 8) in
          (
            put_header h p (block n false),
            join_left-merge h p _ l b first second (omega arith) (omega arith) idle,
            simp idle (put_header-IsHeap h before (l ∷ b ∷ []) after n false is (omega arith)),
            refl,
          )
    ]

merge_right-cons :
    (b : Header) (after : List Header)
    → (b' : Header) × (rest : List Header) × (merge_right b after ≡ b' ∷ rest)
unfolding merge_right
merge_right-cons b [] = (b, [], refl)
merge_right-cons b (r ∷ rest) = elim (Bool-cases r.used) [
  | inl busy ↦ (b, r ∷ rest, simp busy)
  | inr idle ↦ (block (b.length + (r.length + 8)) b.used, rest, simp idle)
]

join_right_ends :
    (h : Heap) (q : ℕ)
    → ((join_right h q).heap_start ≡ h.heap_start) × ((join_right h q).heap_end ≡ h.heap_end)
unfolding join_right
join_right_ends h q = ground arith

-- The walk to the left neighbour of the block behind `before`.
get_prev_heap_block_first : (h : Heap) → get_prev_heap_block h h.heap_start ≡ null
unfolding get_prev_heap_block prev_loop
get_prev_heap_block_first h = ground arith

get_prev_heap_block_last :
    (h : Heap) (ls : List Header) (l : Header) (tail : List Header)
    → IsHeap h ((ls ++ l ∷ []) ++ tail)
    → get_prev_heap_block h (h.heap_start + extent (ls ++ l ∷ [])) ≡ at (h.heap_start + extent ls)
unfolding get_prev_heap_block
get_prev_heap_block_last h ls l tail is =
    let before = Chain-before h.header h.heap_start h.heap_end (ls ++ l ∷ []) tail is.chain in
    let whole = Chain-extent h.header h.heap_start h.heap_end _ is.chain in
    let parts = extent-append (ls ++ l ∷ []) tail in
    prev_loop-at (fuel_for h) h h.heap_start (h.heap_start + extent (ls ++ l ∷ [])) ls l before
      (omega arith) (omega arith)

-- `try_defragment_page` left the blocks `bs`.
abbrev pub Leaves : Heap → List Header → Option Heap → Type 0
Leaves h bs r = (h' : Heap) × (r ≡ some h') × IsHeap h' bs × (h'.heap_start ≡ h.heap_start)

module _ (h : Heap) (b : Header) (after : List Header) where
  defragment_first :
      IsHeap h (b ∷ after) → Leaves h (merge_right b after) (try_defragment_page h h.heap_start)
  unfolding try_defragment_page
  defragment_first is =
      let h' = join_right h h.heap_start in
      let (starts, _) = join_right_ends h h.heap_start in
      let at_start : h.heap_start + 0 ≡ h.heap_start = omega arith in
      let none_left : get_prev_heap_block h' h.heap_start ≡ null =
        subst (λ q. get_prev_heap_block h' q ≡ null) starts (get_prev_heap_block_first h') in
      (h', rw none_left refl, rw at_start at (join_right-IsHeap h [] b after is), starts)

  defragment_last :
      (ls : List Header) (l : Header)
      → IsHeap h ((ls ++ l ∷ []) ++ (b ∷ after))
      → Leaves h
          (ls ++ merge_left l (merge_right b after))
          (try_defragment_page h (h.heap_start + extent (ls ++ l ∷ [])))
  unfolding try_defragment_page
  defragment_last ls l is =
      let q = h.heap_start + extent (ls ++ l ∷ []) in
      let h1 = join_right h q in
      let (starts, _) = join_right_ends h q in
      let is1 = join_right-IsHeap h (ls ++ l ∷ []) b after is in
      let prev : get_prev_heap_block h1 q ≡ at (h1.heap_start + extent ls) =
        subst
          (λ s. get_prev_heap_block h1 (s + extent (ls ++ l ∷ [])) ≡ at (h1.heap_start + extent ls))
          starts (get_prev_heap_block_last h1 ls l (merge_right b after) is1) in
      let (b', rest, e) = merge_right-cons b after in
      let is2 : IsHeap h1 (ls ++ (l ∷ b' ∷ rest)) =
        subst (λ bs. IsHeap h1 (ls ++ (l ∷ bs))) e
          (subst (IsHeap h1) (append_assoc ls (l ∷ []) (merge_right b after)) is1) in
      let (h2, done, is3, starts2) = join_left-IsHeap h1 ls l b' rest is2 in
      let q_eq : h1.heap_start + extent ls + 8 + l.length ≡ q =
        omega (arith, extent-append ls (l ∷ []), starts) in
      (
        h2,
        rw prev (subst (λ a. join_left h1 a (at (h1.heap_start + extent ls)) ≡ some h2) q_eq done),
        rw e is3,
        starts2 ∙ starts,
      )

abbrev Defragments : Heap → Header → List Header → List Header → Type 0
Defragments h b after before =
    IsHeap h (before ++ (block b.length false ∷ after))
    → Leaves h (release before b after) (try_defragment_page h (h.heap_start + extent before))

defragment :
    (h : Heap) (before : List Header) (b : Header) (after : List Header)
    → Defragments h b after before
unfolding release
defragment h before b after = elim (snoc-cases before) [
  | inl e ↦ subst (Defragments h b after) (sym e) λ is.
      let at_start : h.heap_start + 0 ≡ h.heap_start = omega arith in
      rw at_start (defragment_first h (block b.length false) after is)
  | inr (ls, l, e) ↦
      subst (Defragments h b after) (sym e) λ is.
        rw (release-snoc ls l b after) (defragment_last h (block b.length false) after ls l is)
]

-- On a well-formed heap `free` of a block's payload address returns: both walks end. The block
-- becomes free and takes in the block behind it if that is free, and then the block before it
-- takes it in if that is free; the heap stays well-formed and all other blocks are as before.
pub free-release :
    (h : Heap) (before : List Header) (b : Header) (after : List Header)
    → IsHeap h (before ++ (b ∷ after))
    → Leaves h (release before b after) (free (h.heap_start + extent before + 8) h)
unfolding free
free-release h before b after is =
    let q = h.heap_start + extent before in
    let e : q + 8 - 8 ≡ q = omega arith in
    let first = here h before b after is in
    let marked = put_header-IsHeap h before (b ∷ []) after b.length false is (omega arith) in
    rw (e, first) (defragment (put_header h q (block b.length false)) before b after marked)
