-- ===== src/Heap/Layout.antt =====
-- The blocks of the heap as a list, in the order of their addresses.
use esz_os.Base.{
  ℕ, ◌+◌, ◌-◌, ◌^◌, ◌≤◌, ◌<◌, ◌≡◌, false, some, List, [], ◌∷◌, ◌++◌, arith, ◌∙◌, ◌⊎◌, inl, inr,
}
use esz_os.Config.{init_heap_size}
use esz_os.Heap.{Header, block, Heap, write_header, init_heap_alloc}

-- From `p` on stand the blocks `bs`, and the last one ends at `e`.
abbrev pub Chain : (ℕ → Header) → ℕ → ℕ → List Header → Type 0
Chain m p e [] = p ≡ e
Chain m p e (b ∷ bs) = (m p ≡ b) × Chain m (p + 8 + b.length) e bs

-- The bytes that blocks take, headers included.
abbrev pub extent : List Header → ℕ
extent [] = 0
extent (b ∷ bs) = 8 + b.length + extent bs

pub record IsHeap (h : Heap) (bs : List Header) : Type 0 where
  pub chain : Chain h.header h.heap_start h.heap_end bs
  pub started : 0 < h.heap_start
  pub filled : h.heap_start < h.heap_end
  pub small : h.heap_end < h.heap_start + 2 ^ 63

pub Chain-extent :
    (m : ℕ → Header) (p e : ℕ) (bs : List Header) → Chain m p e bs → p + extent bs ≡ e
Chain-extent m p e [] c = omega arith
Chain-extent m p e (b ∷ bs) (_, c) = omega (arith, Chain-extent m (p + 8 + b.length) e bs c)

-- A chain only depends on the headers between its ends.
pub Chain-frame :
    (m m' : ℕ → Header) (p e : ℕ) (bs : List Header)
    → Chain m p e bs
    → ((a : ℕ) → p ≤ a → a < e → m' a ≡ m a)
    → Chain m' p e bs
Chain-frame m m' p e [] c same = c
Chain-frame m m' p e (b ∷ bs) (first, c) same = (
  same p (omega arith) (omega (arith, Chain-extent m (p + 8 + b.length) e bs c)) ∙ first,
  Chain-frame m m' (p + 8 + b.length) e bs c (λ a le lt. same a (omega arith) lt),
)

pub Chain-append :
    (m : ℕ → Header) (p q e : ℕ) (xs ys : List Header)
    → Chain m p q xs
    → Chain m q e ys
    → Chain m p e (xs ++ ys)
Chain-append m p q e [] ys eq d = rw eq d
Chain-append m p q e (x ∷ xs) ys (first, c) d =
    (first, Chain-append m (p + 8 + x.length) q e xs ys c d)

pub Chain-before :
    (m : ℕ → Header) (p e : ℕ) (xs ys : List Header)
    → Chain m p e (xs ++ ys)
    → Chain m p (p + extent xs) xs
Chain-before m p e [] ys c = omega arith
Chain-before m p e (x ∷ xs) ys (first, c) =
    let q : p + extent (x ∷ xs) ≡ p + 8 + x.length + extent xs = omega arith in
    (first, rw q (Chain-before m (p + 8 + x.length) e xs ys c))

pub Chain-after :
    (m : ℕ → Header) (p e : ℕ) (xs ys : List Header)
    → Chain m p e (xs ++ ys)
    → Chain m (p + extent xs) e ys
Chain-after m p e [] ys c = let q : p + 0 ≡ p = omega arith in rw q c
Chain-after m p e (x ∷ xs) ys (first, c) =
    let q : p + extent (x ∷ xs) ≡ p + 8 + x.length + extent xs = omega arith in
    rw q (Chain-after m (p + 8 + x.length) e xs ys c)

pub extent-append : (xs ys : List Header) → extent (xs ++ ys) ≡ extent xs + extent ys
extent-append [] ys = omega arith
extent-append (x ∷ xs) ys = omega (arith, extent-append xs ys)

-- Some blocks in the middle give way to others of the same extent, and no header outside changes.
pub Chain-replace :
    (m m' : ℕ → Header) (p e : ℕ) (before mid new after : List Header)
    → let q = p + extent before in
      Chain m p e (before ++ (mid ++ after))
      → Chain m' q (q + extent mid) new
      → ((a : ℕ) → (a < q) ⊎ (q + extent mid ≤ a) → m' a ≡ m a)
      → Chain m' p e (before ++ (new ++ after))
Chain-replace m m' p e before mid new after c d same =
    let q = p + extent before in
    let behind : Chain m (q + extent mid) e after =
      Chain-after m q e mid after (Chain-after m p e before (mid ++ after) c) in
    Chain-append m' p q e before (new ++ after)
      (Chain-frame m m' p q before (Chain-before m p e before (mid ++ after) c)
        (λ a le lt. same a (inl lt)))
      (Chain-append m' q (q + extent mid) e new after d
        (Chain-frame m m' (q + extent mid) e after behind (λ a le lt. same a (inr le))))

-- The initial heap is one free block.
pub init_heap_alloc-IsHeap :
    (memory : ℕ → Header) (initial : ℕ)
    → 0 < initial
    → (h : Heap) × (init_heap_alloc memory initial ≡ some h)
      × IsHeap h (block (init_heap_size - 8) false ∷ [])
unfolding init_heap_alloc write_header
init_heap_alloc-IsHeap memory initial pos = (h, ground arith, is_heap)
  where
    h : Heap
    h = record {
      header = write_header memory initial (block (init_heap_size - 8) false);
      heap_start = initial;
      heap_end = initial + init_heap_size;
    }

    is_heap : IsHeap h (block (init_heap_size - 8) false ∷ [])
    is_heap = record {
      chain = (ground arith, omega arith);
      started = pos;
      filled = omega arith;
      small = omega arith;
    }
