-- ===== src/Heap.antt =====
-- The kernel heap of kernel/memory/heap/heap.cpp. A block is a header of 8 bytes and `length`
-- bytes behind it; `header a` is the `MemoryBlockHeader` at the address `a`. Payloads are not
-- part of the state: the allocator reads and writes headers only.
pub mod Layout
pub mod Malloc
pub mod Free
pub mod Coalesced
pub mod RoundTrip
pub mod Safety
mod Tests
use esz_os.Base.{
  ℕ, zero, suc, ◌+◌, ◌-◌, ◌*◌, ◌%◌, ◌^◌, Bool, true, false, ◌||◌, ◌&&◌, not, Option, none, some,
  ◌==◌, ltb, leb, if◌then◌else◌,
}
use esz_os.Config.{init_heap_size}

-- `uint64_t Length : 63` and `Used : 1`, of kernel/memory/memory.h.
pub record Header : Type 0 where
  pub length : ℕ
  pub used : Bool

abbrev pub block : ℕ → Bool → Header
block n u = record { length = n; used = u }

-- sizeof(MemoryBlockHeader)
abbrev pub header_size : ℕ
header_size = 8

-- A value that is stored in a field of 63 bits.
abbrev pub u63 : ℕ → ℕ
u63 n = n % 2 ^ 63

-- `heapStartPtr`, `heapEndPtr` and the memory between them.
pub record Heap : Type 0 where
  pub header : ℕ → Header
  pub heap_start : ℕ
  pub heap_end : ℕ

unfoldable pub write_header : (ℕ → Header) → ℕ → Header → ℕ → Header
write_header m a b i = if i == a then b else m i

abbrev pub put_header : Heap → ℕ → Header → Heap
put_header h a b = record h { header = write_header h.header a b }

unfoldable pub get_next_heap_block : Heap → ℕ → ℕ
get_next_heap_block h curr = curr + header_size + (h.header curr).length

-- How a loop over the blocks ends; `endless` if it is still going after `fuel` rounds.
pub data Walk : Type 0 where
  at : ℕ → Walk
  null : Walk
  endless : Walk

-- The loop of `get_prev_heap_block`.
unfoldable pub prev_loop : ℕ → Heap → ℕ → ℕ → Walk
prev_loop zero h curr loop = endless
prev_loop (suc fuel) h curr loop = elim (leb h.heap_start loop && ltb loop curr) [
  | false ↦ null
  | true ↦ elim (get_next_heap_block h loop == curr) [
    | true ↦ at loop
    | false ↦ prev_loop fuel h curr (get_next_heap_block h loop)
  ]
]

-- Each round of a loop moves up by 8 bytes at least, so the size of the heap is fuel enough.
abbrev pub fuel_for : Heap → ℕ
fuel_for h = suc (h.heap_end - h.heap_start)

unfoldable pub get_prev_heap_block : Heap → ℕ → Walk
get_prev_heap_block h curr = prev_loop (fuel_for h) h curr h.heap_start

-- The first half of `try_defragment_page`.
unfoldable pub join_right : Heap → ℕ → Heap
join_right h freed =
    let right = get_next_heap_block h freed in
    if ltb right h.heap_end && not (h.header right).used
    then put_header h freed (
        block (u63 ((h.header freed).length + ((h.header right).length + header_size)))
          (h.header freed).used)
    else h

-- The second half. `none` stands for a walk that does not end.
unfoldable pub join_left : Heap → ℕ → Walk → Option Heap
join_left h freed endless = none
join_left h freed null = some h
join_left h freed (at left) = some (
    if leb h.heap_start left && not (h.header left).used
    then put_header h left (
        block (u63 ((h.header left).length + ((h.header freed).length + header_size)))
          (h.header left).used)
    else h)

unfoldable pub try_defragment_page : Heap → ℕ → Option Heap
unfolding join_right join_left
try_defragment_page h freed =
    let h' = join_right h freed in join_left h' freed (get_prev_heap_block h' freed)

-- The search loop of `malloc`: `null` when it runs past the end.
unfoldable pub find_block : ℕ → Heap → ℕ → ℕ → Walk
find_block zero h size curr = endless
find_block (suc fuel) h size curr = elim (ltb (h.header curr).length size || (h.header curr).used) [
  | false ↦ at curr
  | true ↦
      let next = get_next_heap_block h curr in
      elim (leb h.heap_end next) [ true ↦ null | false ↦ find_block fuel h size next ]
]

-- What `malloc` does to the block that it found, and the address that it returns.
unfoldable pub take_block : Heap → ℕ → ℕ → ℕ × Heap
take_block h size curr =
    let old = (h.header curr).length in
    let taken = put_header h curr (block (u63 size) true) in
    let return_addr = curr + header_size in
    let next_length = old - size - header_size in
    if ltb (size + header_size) old && ltb header_size next_length
    then (
      return_addr,
      put_header taken (get_next_heap_block taken curr) (block (u63 next_length) false),
    )
    else (return_addr, put_header taken curr (block old true))

-- 0 is the null pointer; `none` stands for a search that does not end.
unfoldable pub found_block : Heap → ℕ → Walk → Option (ℕ × Heap)
found_block h size endless = none
found_block h size null = some (0, h)
found_block h size (at curr) = some (take_block h size curr)

unfoldable pub malloc : ℕ → Heap → Option (ℕ × Heap)
unfolding found_block
malloc size h = found_block h size (find_block (fuel_for h) h size h.heap_start)

unfoldable pub free : ℕ → Heap → Option Heap
free ptr h =
    let header = ptr - header_size in
    try_defragment_page (put_header h header (block (h.header header).length false)) header

-- `memory` is what stands in the pages that `vmm_malloc_pages` returned, 0 if it failed; the
-- result is `none` where the source returns false.
unfoldable pub init_heap_alloc : (ℕ → Header) → ℕ → Option Heap
init_heap_alloc memory initial =
    if initial == 0
    then none
    else some (record {
      header = write_header memory initial (block (u63 (init_heap_size - header_size)) false);
      heap_start = initial;
      heap_end = initial + init_heap_size;
    })
