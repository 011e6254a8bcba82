-- ===== src/Heap/Tests.antt =====
-- Runs of the allocator of kernel/memory/heap/heap.cpp on a heap of three blocks.
use esz_os.Base.{ℕ, ◌≡◌, refl, true, false, some, List, [], ◌∷◌, arith}
use esz_os.Heap.{
  Header, block, Heap, write_header, find_block, take_block, get_next_heap_block, malloc, free,
}
use esz_os.Heap.Layout.{IsHeap}
use esz_os.Heap.Malloc.{Malloced, malloc-Malloced}
use esz_os.Heap.Free.{Leaves, release, free-release}
use esz_os.Heap.Coalesced.{IsWellFormed, Returns, malloc-IsWellFormed}
use esz_os.Heap.RoundTrip.{free-malloc}
use esz_os.Heap.Safety.{IsSafe, malloc-IsSafe}

abbrev blocks : List Header
blocks = block 16 true ∷ block 64 false ∷ block 8 true ∷ []

abbrev headers : ℕ → Header
headers =
    write_header
      (write_header (write_header (λ _. block 0 false) 1000 (block 16 true)) 1024 (block 64 false))
      1096 (block 8 true)

abbrev sample : Heap
sample = record { header = headers; heap_start = 1000; heap_end = 1112 }

-- The free block serves 40 bytes and keeps 16.
abbrev served : Heap
served = record sample {
  header = write_header (write_header headers 1024 (block 40 true)) 1072 (block 16 false);
}

malloc_splits : malloc 40 sample ≡ some (1032, served)
unfolding malloc find_block take_block write_header get_next_heap_block
malloc_splits = refl

-- A rest of 8 bytes is not split off.
malloc_keeps :
    malloc 49 sample
    ≡ some (
      1032,
      record sample {
        header = write_header (write_header headers 1024 (block 49 true)) 1024 (block 64 true);
      },
    )
unfolding malloc find_block take_block write_header get_next_heap_block
malloc_keeps = refl

malloc_too_large : malloc 65 sample ≡ some (0, sample)
unfolding malloc find_block take_block write_header get_next_heap_block
malloc_too_large = refl

sample-IsWellFormed : IsWellFormed sample blocks
unfolding write_header
sample-IsWellFormed = record {
  is_heap = record {
    chain = (refl, (refl, (refl, refl)));
    started = omega arith;
    filled = omega arith;
    small = omega arith;
  };
  coalesced = (refl, (refl, (refl, tt)));
}

malloc-Malloced_example : Malloced sample 40 blocks (malloc 40 sample)
malloc-Malloced_example = malloc-Malloced sample 40 blocks sample-IsWellFormed.is_heap

free-release_example :
    Leaves sample
      (release [] (block 16 true) (block 64 false ∷ block 8 true ∷ []))
      (free 1008 sample)
free-release_example =
    free-release sample [] (block 16 true) (block 64 false ∷ block 8 true ∷ [])
      sample-IsWellFormed.is_heap

malloc-IsWellFormed_example : Returns (malloc 40 sample)
malloc-IsWellFormed_example = malloc-IsWellFormed sample 40 blocks sample-IsWellFormed

free-malloc_example : (h'' : Heap) × (free 1032 served ≡ some h'') × IsHeap h'' blocks
free-malloc_example =
    free-malloc sample 40 blocks 1032 served sample-IsWellFormed malloc_splits (omega arith)

malloc-IsSafe_example : IsSafe sample 40 blocks 1032 served
malloc-IsSafe_example =
    malloc-IsSafe sample 40 blocks 1032 served sample-IsWellFormed.is_heap malloc_splits
      (omega arith)
