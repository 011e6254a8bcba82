-- ===== src/Pmm.antt =====
-- The physical memory manager: kernel/memory/physical/pmm/pmm.cpp and pmm_bitmap/pmm_bitmap.cpp.
-- The globals of pmm.cpp are the fields of `Pmm`. The boot loader's memory map is a list of
-- regions, and its constant LIMINE_MEMMAP_USABLE a parameter. A page is free if its bit is clear.
pub mod Malloc
pub mod Counts
pub mod Init
mod Tests
use esz_os.Base.{
  ℕ, zero, suc, ◌+◌, ◌-◌, ◌*◌, ◌/◌, ◌%◌, ◌^◌, ◌≤◌, ◌<◌, Bool, true, false, List, [], ◌∷◌, Option,
  none, some, ◌==◌, ltb, leb, if◌then◌else◌, Buffer, u64, length,
}
use esz_os.Config.{page_size}
use esz_os.Math.{divide_round_up}
use esz_os.Memory.{memory_fill}
use esz_os.Bitmap.{Bitmap, bit_read, find_free_range, write_bits}

-- `struct limine_memmap_entry`
pub record Region : Type 0 where
  pub kind : ℕ
  pub base : ℕ
  pub length : ℕ

pub record Pmm : Type 0 where
  pub pmm_bitmap : Bitmap
  pub memory_region_count : ℕ
  pub total_usable_bytes : ℕ
  pub highest_address : ℕ

-- UINT64_MAX
abbrev pub pmm_malloc_failed : ℕ
pmm_malloc_failed = 2 ^ 64 - 1

abbrev pub bytes_of : Pmm → Buffer
bytes_of p = p.pmm_bitmap.bytes

abbrev pub with_bytes : Pmm → Buffer → Pmm
with_bytes p bytes = record p { pmm_bitmap = record { bytes = bytes; count = p.pmm_bitmap.count } }

unfoldable pub get_memory_region_count : List Region → Pmm → Pmm
get_memory_region_count regions p = record p { memory_region_count = length regions }

module _ (usable : ℕ) where
  -- The body of the loop of `get_memory_regions` at one entry.
  unfoldable pub see_region : Region → Pmm → Pmm
  see_region r p =
      if r.kind == usable
      then (let curr_addr = u64 (r.base + r.length) in
          record p {
            total_usable_bytes = u64 (p.total_usable_bytes + r.length);
            highest_address =
                if ltb p.highest_address curr_addr then curr_addr else p.highest_address;
          })
      else p

  -- The loop goes over `memoryRegionCount` entries, which are all of them.
  unfoldable pub get_memory_regions : List Region → Pmm → Pmm
  get_memory_regions [] p = p
  get_memory_regions (r ∷ rest) p = get_memory_regions rest (see_region r p)

-- Always true in the source.
unfoldable pub pmm_malloc_page_range : ℕ → ℕ → Pmm → Bool × Pmm
pmm_malloc_page_range page page_amount p =
    (true, with_bytes p (write_bits page_amount page true (bytes_of p)))

-- What `pmm_malloc` does with the answer of the search.
unfoldable pub pmm_malloc_found : ℕ → ℕ × Bool → Pmm → ℕ × Pmm
unfolding pmm_malloc_page_range
pmm_malloc_found req_pages (page_range_begin, false) p = (pmm_malloc_failed, p)
pmm_malloc_found req_pages (page_range_begin, true) p =
    let (done, p') = pmm_malloc_page_range page_range_begin req_pages p in
    (if done then (u64 (page_range_begin * page_size), p') else (pmm_malloc_failed, p'))

unfoldable pub pmm_malloc : ℕ → Pmm → ℕ × Pmm
unfolding pmm_malloc_found
pmm_malloc byte_amount p =
    let req_pages = divide_round_up byte_amount page_size in
    pmm_malloc_found req_pages (find_free_range p.pmm_bitmap req_pages) p

unfoldable pub pmm_malloc_page : Pmm → ℕ × Pmm
pmm_malloc_page p = pmm_malloc page_size p

unfoldable pub pmm_malloc_pages : ℕ → Pmm → ℕ × Pmm
pmm_malloc_pages page_amount p = pmm_malloc (u64 (page_size * page_amount)) p

-- 0 is the null pointer.
unfoldable pub pmm_malloc_addr : ℕ → ℕ → Pmm → ℕ × Pmm
pmm_malloc_addr hhdm_offset byte_amount p =
    let (phys_addr, p') = pmm_malloc byte_amount p in
    if phys_addr == pmm_malloc_failed then (0, p') else (u64 (phys_addr + hhdm_offset), p')

-- The loop at page `i`, with `left` rounds to go: free and used pages.
unfoldable pub count_pages : ℕ → ℕ → Buffer → ℕ → ℕ → ℕ × ℕ
count_pages zero i bytes free used = (free, used)
count_pages (suc left) i bytes free used =
    count_pages left (i + 1) bytes (if bit_read bytes i then free else free + 1)
      (if bit_read bytes i then used + 1 else used)

unfoldable pub get_pmm_page_counts : Pmm → ℕ × ℕ
get_pmm_page_counts p = count_pages p.pmm_bitmap.count 0 (bytes_of p) 0 0

-- Always true in the source.
unfoldable pub pmm_free : ℕ → ℕ → Pmm → Bool × Pmm
pmm_free addr byte_amount p = (
  true,
  with_bytes p
      (write_bits (divide_round_up byte_amount page_size) (addr / page_size) false (bytes_of p)),
)

module _ (usable : ℕ) where
  unfoldable pub init_bitmap_data : List Region → Pmm → Pmm
  init_bitmap_data [] p = p
  init_bitmap_data (r ∷ rest) p =
      init_bitmap_data rest (if r.kind == usable then (pmm_free r.base r.length p).1 else p)

  -- The first usable region that has room for the bitmap.
  unfoldable pub bitmap_region : ℕ → List Region → Option Region
  bitmap_region req_size [] = none
  bitmap_region req_size (r ∷ rest) =
      if r.kind == usable
      then (if leb req_size r.length then some r else bitmap_region req_size rest)
      else bitmap_region req_size rest

  -- `memory` are the bytes from the chosen region's address on. With no such region the pointer
  -- stays null and the writes through it fault: `none`.
  unfoldable pub get_free_location_for_bitmap : (Region → Buffer) → List Region → Pmm → Option Pmm
  get_free_location_for_bitmap memory regions p =
      let count = p.highest_address / page_size in
      let req_size = divide_round_up count 8 in
      elim (bitmap_region req_size regions) [
        | none ↦ none
        | some r ↦
            let filled = memory_fill (memory r) 0 0xFF req_size in
            let started = record p { pmm_bitmap = record { bytes = filled; count = count } } in
            let freed = init_bitmap_data regions started in
            let pages = divide_round_up req_size page_size in
            some (pmm_malloc_page_range (r.base / page_size) pages freed).1
      ]
