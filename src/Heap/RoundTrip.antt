-- ===== src/Heap/RoundTrip.antt =====
-- `free` after `malloc` in kernel/memory/heap/heap.cpp.
use esz_os.Base.{
  ℕ, ◌+◌, ◌-◌, ◌≤◌, ◌≡◌, ◌≢◌, refl, Bool, true, false, not, Option, none, some, ltb, List, [], ◌∷◌,
  ◌++◌, arith, ◌∙◌, ap, sym, subst, inl, inr, Bool-cases, ltb→lt,
}
use esz_os.Heap.Coalesced.{CoalescedAfter, Coalesced, IsWellFormed, fit-parts, idle_eq}
use esz_os.Heap.{Header, block, Heap, malloc, free}
use esz_os.Heap.Layout.{extent, IsHeap}
use esz_os.Heap.Malloc.{fits, serve, Malloced, got, refused, malloc-Malloced}
use esz_os.Heap.Free.{merge_right, merge_left, release, free-release}

-- Releasing a block that merges into `b` gives back the blocks of a coalesced list.
release-undo :
    (f : Bool) (before : List Header) (u b : Header) (tail after : List Header)
    → b.used ≡ false
    → merge_right (block u.length false) tail ≡ b ∷ after
    → CoalescedAfter f (before ++ (b ∷ after))
    → release before u tail ≡ before ++ (b ∷ after)
unfolding release merge_left
release-undo f [] u b tail after idle e c = e
release-undo f (l ∷ []) u b tail after idle e (_, (apart, _)) =
    let busy : l.used ≡ true = ground arith in rw e (simp busy refl)
release-undo f (l ∷ l' ∷ ls) u b tail after idle e (_, c) =
    ap (λ r. l ∷ r) (release-undo (not l.used) (l' ∷ ls) u b tail after idle e c)

-- A block whose right neighbour is in use does not merge.
merge_right-keep :
    (b : Header) (after : List Header) → CoalescedAfter true after → merge_right b after ≡ b ∷ after
unfolding merge_right
merge_right-keep b [] c = refl
merge_right-keep b (r ∷ rest) (e, _) = let busy : r.used ≡ true = ground arith in simp busy refl

-- The block that `malloc` hands out, and what merges back into the block that it was cut from.
serve-parts :
    (size : ℕ) (b : Header) (after : List Header)
    → fits size b ≡ true
    → CoalescedAfter true after
    → (u : Header) × (us : List Header) × (serve size b ≡ u ∷ us)
      × (u.used ≡ true)
      × (size ≤ u.length)
      × (merge_right (block u.length false) (us ++ after) ≡ b ∷ after)
unfolding serve merge_right
serve-parts size b after fit c =
    let (large, idle) = fit-parts size b fit in
    elim (Bool-cases (ltb (size + 16) b.length)) [
      | inl wide ↦
          let sum : size + (b.length - size - 8 + 8) ≡ b.length = omega (arith, ltb→lt _ _ wide) in
          (
            block size true,
            block (b.length - size - 8) false ∷ [],
            rw wide,
            refl,
            omega arith,
            ap (λ n. block n false ∷ after) sum ∙ ap (λ x. x ∷ after) (idle_eq b idle),
          )
      | inr narrow ↦ (
        block b.length true,
        [],
        rw narrow,
        refl,
        large,
        merge_right-keep (block b.length false) after c ∙ ap (λ x. x ∷ after) (idle_eq b idle),
      )
    ]

behind_free :
    (f : Bool) (before : List Header) (b : Header) (after : List Header)
    → b.used ≡ false
    → CoalescedAfter f (before ++ (b ∷ after))
    → CoalescedAfter true after
behind_free f [] b after idle (_, c) = rw idle at c
behind_free f (x ∷ before) b after idle (_, c) = behind_free (not x.used) before b after idle c

-- Freeing what the call returned gives a heap of the blocks `bs`.
abbrev Undone : List Header → Option (ℕ × Heap) → Type 0
Undone bs none = ⊥
Undone bs (some (p, h')) = p ≢ 0 → (h'' : Heap) × (free p h' ≡ some h'') × IsHeap h'' bs

Malloced-undo :
    (h : Heap) (size : ℕ) (bs : List Header) {r : Option (ℕ × Heap)}
    → IsWellFormed h bs
    → Malloced h size bs r
    → Undone bs r
Malloced-undo h size bs w (refused _) = λ ne. absurd (ne refl)
Malloced-undo h size bs w (got before b after g f is starts frame) = λ ne.
    let good : Coalesced (before ++ (b ∷ after)) = subst Coalesced f.cut w.coalesced in
    let (_, idle) = fit-parts size b f.fit in
    let (u, us, cut, _, _, back) =
      serve-parts size b after f.fit (behind_free false before b after idle good) in
    let is' : IsHeap g (before ++ (u ∷ (us ++ after))) =
      subst (λ l. IsHeap g (before ++ (l ++ after))) cut is in
    let (g', done, is'', _) = free-release g before u (us ++ after) is' in
    let same : release before u (us ++ after) ≡ bs =
      release-undo false before u b (us ++ after) after idle back good ∙ sym f.cut in
    (
      g',
      subst (λ s. free (s + extent before + 8) g ≡ some g') starts done,
      subst (IsHeap g') same is'',
    )

-- On a well-formed heap, freeing what `malloc` has just returned gives back the very blocks that
-- the heap had before the call: nothing is lost to fragmentation.
pub free-malloc :
    (h : Heap) (size : ℕ) (bs : List Header) (p : ℕ) (h' : Heap)
    → IsWellFormed h bs
    → malloc size h ≡ some (p, h')
    → p ≢ 0
    → (h'' : Heap) × (free p h' ≡ some h'') × IsHeap h'' bs
free-malloc h size bs p h' w e =
    subst (Undone bs) e (Malloced-undo h size bs w (malloc-Malloced h size bs w.is_heap))
