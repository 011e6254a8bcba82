-- ===== src/Heap/Malloc.antt =====
-- `malloc` of kernel/memory/heap/heap.cpp refines first fit on the list of blocks.
use esz_os.Base.{
  ℕ, zero, suc, ◌+◌, ◌-◌, ◌^◌, ◌≤◌, ◌<◌, ◌≡◌, refl, Bool, true, false, ◌||◌, not, Option, some, ltb,
  if◌then◌else◌, List, [], ◌∷◌, ◌++◌, arith, ap, sym, subst, ◌⊎◌, inl, inr, Bool-cases, ltb→lt,
  ltb→le,
}
use esz_os.Heap.{
  Header, block, Heap, Walk, at, null, fuel_for, write_header, get_next_heap_block, find_block,
  take_block, found_block, malloc,
}
use esz_os.Heap.Layout.{
  Chain, extent, IsHeap, Chain-extent, Chain-after, Chain-replace, extent-append,
}

-- The block can serve a request of `size` bytes.
abbrev pub fits : ℕ → Header → Bool
fits size b = not (ltb b.length size || b.used)

-- What a block becomes when it serves the request: a rest with more than 8 bytes is split off.
unfoldable pub serve : ℕ → Header → List Header
serve size b =
    if ltb (size + 16) b.length
    then block size true ∷ block (b.length - size - 8) false ∷ []
    else block b.length true ∷ []

abbrev pub NoneFits : ℕ → List Header → Type 0
NoneFits size [] = Unit {0}
NoneFits size (b ∷ bs) = (fits size b ≡ false) × NoneFits size bs

-- `bs` is cut at the first block that fits.
pub record IsFirstFit (size : ℕ) (bs before : List Header) (b : Header) (after : List Header)
    : Type 0 where
  pub cut : bs ≡ before ++ (b ∷ after)
  pub fit : fits size b ≡ true
  pub misses : NoneFits size before

-- The search from the address `p` of the blocks `bs`.
data Found (size p : ℕ) (bs : List Header) : Walk → Type 0 where
  hit :
      (before : List Header) (b : Header) (after : List Header)
      → IsFirstFit size bs before b after
      → Found size p bs (at (p + extent before))
  miss : NoneFits size bs → Found size p bs null

Found-cons :
    (size p : ℕ) (b : Header) (bs : List Header) (w : Walk)
    → fits size b ≡ false
    → Found size (p + 8 + b.length) bs w
    → Found size p (b ∷ bs) w
Found-cons size p b bs w fails (hit before c after f) =
    let e : p + 8 + b.length + extent before ≡ p + extent (b ∷ before) = omega arith in
    rw e (
      hit (b ∷ before) c after
        (record { cut = ap (λ l. b ∷ l) f.cut; fit = f.fit; misses = (fails, f.misses) }))
Found-cons size p b bs w fails (miss m) = miss (fails, m)

hit_here :
    (size p : ℕ) (b : Header) (bs : List Header) → fits size b ≡ true → Found size p (b ∷ bs) (at p)
hit_here size p b bs fit =
    let e : p + 0 ≡ p = omega arith in
    subst (λ x. Found size p (b ∷ bs) (at x)) e
      (hit [] b bs (record { cut = refl; fit = fit; misses = tt }))

module _ (fuel size p : ℕ) (h : Heap) (b : Header) (first : h.header p ≡ b) where
  find_block_hit : fits size b ≡ true → find_block (suc fuel) h size p ≡ at p
  unfolding find_block
  find_block_hit fit = ground arith

  find_block_end :
      fits size b ≡ false → h.heap_end ≤ p + 8 + b.length → find_block (suc fuel) h size p ≡ null
  unfolding find_block get_next_heap_block
  find_block_end fails last = ground arith

  find_block_next :
      fits size b ≡ false
      → p + 8 + b.length < h.heap_end
      → find_block (suc fuel) h size p ≡ find_block fuel h size (p + 8 + b.length)
  unfolding find_block get_next_heap_block
  find_block_next fails more = ground arith

find_block-Found :
    (fuel size p : ℕ) (h : Heap) (b : Header) (bs : List Header)
    → Chain h.header p h.heap_end (b ∷ bs)
    → h.heap_end - p < fuel
    → Found size p (b ∷ bs) (find_block fuel h size p)
find_block-Found zero size p h b bs c enough = absurd (omega arith)
find_block-Found (suc fuel) size p h b [] (first, c) enough = elim (Bool-cases (fits size b)) [
  | inl fit ↦ rw (find_block_hit fuel size p h b first fit) (hit_here size p b [] fit)
  | inr fails ↦ rw (find_block_end fuel size p h b first fails (omega arith)) (miss (fails, tt))
]
find_block-Found (suc fuel) size p h b (b' ∷ bs) (first, c) enough =
    elim (Bool-cases (fits size b)) [
      | inl fit ↦ rw (find_block_hit fuel size p h b first fit) (hit_here size p b (b' ∷ bs) fit)
      | inr fails ↦
          let more : p + 8 + b.length < h.heap_end =
            omega (arith, Chain-extent h.header (p + 8 + b.length) h.heap_end (b' ∷ bs) c) in
          rw (find_block_next fuel size p h b first fails more) (
            Found-cons size p b (b' ∷ bs) _ fails
              (find_block-Found fuel size (p + 8 + b.length) h b' bs c (omega arith)))
    ]

-- What `take_block` leaves at the two addresses that it writes, and elsewhere.
module _ (h : Heap) (size q : ℕ) (b : Header) (first : h.header q ≡ b) (fit : fits size b ≡ true)
    (small : b.length < 2 ^ 63) where
  take_block_addr : (take_block h size q).0 ≡ q + 8
  unfolding take_block write_header get_next_heap_block
  take_block_addr = ground arith

  take_block_wide :
      size + 16 < b.length
      → let m = (take_block h size q).1.header in
        (m q ≡ block size true) × (m (q + 8 + size) ≡ block (b.length - size - 8) false)
  unfolding take_block write_header get_next_heap_block
  take_block_wide wide = ground arith

  take_block_narrow : b.length ≤ size + 16 → (take_block h size q).1.header q ≡ block b.length true
  unfolding take_block write_header get_next_heap_block
  take_block_narrow narrow = ground arith

  take_block-Chain :
      (e : ℕ) → q + 8 + b.length ≡ e → Chain (take_block h size q).1.header q e (serve size b)
  unfolding serve
  take_block-Chain e at_end = elim (Bool-cases (ltb (size + 16) b.length)) [
    | inl wide ↦
        let (here, rest) = take_block_wide (ltb→lt _ _ wide) in
        rw wide (here, (rest, omega (arith, ltb→lt _ _ wide)))
    | inr narrow ↦ rw narrow (take_block_narrow (ltb→le _ _ narrow), at_end)
  ]

  take_block_ends :
      ((take_block h size q).1.heap_start ≡ h.heap_start)
      × ((take_block h size q).1.heap_end ≡ h.heap_end)
  unfolding take_block
  take_block_ends = ground arith

  take_block_frame :
      (a : ℕ) → (a < q) ⊎ (q + 8 + b.length ≤ a) → (take_block h size q).1.header a ≡ h.header a
  unfolding take_block write_header get_next_heap_block
  take_block_frame a outside = ground arith

-- What `malloc` did to a heap of the blocks `bs`: it cut the first fitting block and returned the
-- address of its payload, or nothing fits and it returned null.
pub data Malloced (h : Heap) (size : ℕ) (bs : List Header) : Option (ℕ × Heap) → Type 0 where
  got :
      (before : List Header) (b : Header) (after : List Header) (h' : Heap)
      → IsFirstFit size bs before b after
      → IsHeap h' (before ++ (serve size b ++ after))
      → h'.heap_start ≡ h.heap_start
      → ((a : ℕ)
          → (a < h.heap_start + extent before) ⊎ (h.heap_start + extent before + 8 + b.length ≤ a)
          → h'.header a ≡ h.header a)
      → Malloced h size bs (some (h.heap_start + extent before + 8, h'))
  refused : NoneFits size bs → Malloced h size bs (some (0, h))

module _ (h : Heap) (size : ℕ) (bs : List Header) (is : IsHeap h bs) where
  module _ (before : List Header) (b : Header) (after : List Header)
      (f : IsFirstFit size bs before b after) where
    cut-Chain : Chain h.header h.heap_start h.heap_end (before ++ ((b ∷ []) ++ after))
    cut-Chain = rw f.cut at is.chain

    here : h.header (h.heap_start + extent before) ≡ b
    here = (Chain-after h.header h.heap_start h.heap_end before (b ∷ after) cut-Chain).0

    b_small : b.length < 2 ^ 63
    b_small = omega (
      arith,
      Chain-extent h.header h.heap_start h.heap_end _ cut-Chain,
      extent-append before (b ∷ after),
      is.small,
    )

    served-Malloced : Malloced h size bs (some (take_block h size (h.heap_start + extent before)))
    served-Malloced =
        let q = h.heap_start + extent before in
        let t = take_block h size q in
        let (starts, ends) = take_block_ends h size q b here f.fit b_small in
        let mid : q + extent (b ∷ []) ≡ q + 8 + b.length = omega arith in
        subst (λ a. Malloced h size bs (some (a, t.1)))
          (sym (take_block_addr h size q b here f.fit b_small))
          (got before b after t.1 f
            (record {
              chain =
                  rw (starts, ends)
                    (Chain-replace h.header t.1.header h.heap_start h.heap_end before (b ∷ [])
                      (serve size b) after cut-Chain
                      (rw mid (take_block-Chain h size q b here f.fit b_small _ refl))
                      (rw mid (take_block_frame h size q b here f.fit b_small)));
              started = rw starts is.started;
              filled = rw (starts, ends) is.filled;
              small = rw (starts, ends) is.small;
            })
            starts (take_block_frame h size q b here f.fit b_small))

  Found-Malloced :
      (w : Walk) → Found size h.heap_start bs w → Malloced h size bs (found_block h size w)
  unfolding found_block
  Found-Malloced w (hit before b after f) = served-Malloced before b after f
  Found-Malloced w (miss m) = refused m

-- On a well-formed heap `malloc` returns after at most as many rounds as the heap has bytes. It
-- takes the first free block that is large enough, splits off what is left if that is more than 8
-- bytes beyond a header, and leaves a well-formed heap in which all other blocks are as before; it
-- returns null, and changes nothing, exactly when no free block is large enough.
pub malloc-Malloced :
    (h : Heap) (size : ℕ) (bs : List Header) → IsHeap h bs → Malloced h size bs (malloc size h)
unfolding malloc
malloc-Malloced h size [] is = absurd (omega (arith, is.chain, is.filled))
malloc-Malloced h size (b ∷ bs) is =
    Found-Malloced h size (b ∷ bs) is _
      (find_block-Found (fuel_for h) size h.heap_start h b bs is.chain (omega arith))
