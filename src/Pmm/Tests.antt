-- ===== src/Pmm/Tests.antt =====
-- Runs of kernel/memory/physical/pmm/pmm.cpp.
use esz_os.Base.{
  ◌+◌, ◌*◌, ◌/◌, ◌≡◌, refl, false, some, List, [], ◌∷◌, arith, ◌==◌, if◌then◌else◌, Buffer, store,
  IsBytes,
}
use esz_os.Bitmap.{bit_read, find_free_range, search_range, write_bits, bit_write, bit_set}
use esz_os.Bitmap.Ranges.{in_range}
use esz_os.Math.{divide_round_up}
use esz_os.Pmm.{Region, Pmm, bytes_of, pmm_malloc, pmm_free, get_pmm_page_counts, bitmap_region}
use esz_os.Pmm.Malloc.{Allocated, pmm_malloc-Allocated, pmm_free-pmm_malloc, pmm_malloc_twice}
use esz_os.Pmm.Counts.{get_pmm_page_counts-pmm_malloc}

-- Pages 0, 2, 3 and 5 of 20 are used.
abbrev bytes : Buffer
bytes i = if i == 0 then 0x2d else 0

abbrev pmm : Pmm
pmm = record {
  pmm_bitmap = record { bytes = bytes; count = 20 };
  memory_region_count = 0;
  total_usable_bytes = 0;
  highest_address = 20 * 4096;
}

bytes-IsBytes : IsBytes bytes
bytes-IsBytes i = ground arith

malloc_addr : (pmm_malloc 5000 pmm).0 ≡ 6 * 4096
unfolding pmm_malloc divide_round_up find_free_range search_range bit_read
malloc_addr = refl

malloc_second : (pmm_malloc 4096 (pmm_malloc 5000 pmm).1).0 ≡ 4096
unfolding pmm_malloc divide_round_up find_free_range search_range bit_read write_bits bit_write
    bit_set store
malloc_second = refl

pmm_malloc-Allocated_example : Allocated pmm 2 (pmm_malloc 5000 pmm)
pmm_malloc-Allocated_example =
    pmm_malloc-Allocated pmm 5000 (omega arith) (omega arith) (omega arith) bytes-IsBytes

pmm_free-pmm_malloc_example :
    bit_read (bytes_of (pmm_free (pmm_malloc 5000 pmm).0 5000 (pmm_malloc 5000 pmm).1).1) 7
    ≡ bit_read bytes 7
pmm_free-pmm_malloc_example =
    pmm_free-pmm_malloc pmm 5000 7 (omega arith) (omega arith) (omega arith) bytes-IsBytes
      (omega (arith, malloc_addr))

pmm_malloc_twice_example : in_range ((pmm_malloc 4096 (pmm_malloc 5000 pmm).1).0 / 4096) 1 7 ≡ false
pmm_malloc_twice_example =
    pmm_malloc_twice pmm 5000 4096 7 (omega arith) (omega arith) (omega arith) (omega arith)
      (omega arith) bytes-IsBytes (omega (arith, malloc_addr)) (omega (arith, malloc_second))
      (ground (arith, malloc_addr))

get_pmm_page_counts-pmm_malloc_example :
    let before = get_pmm_page_counts pmm in
    let after = get_pmm_page_counts (pmm_malloc 5000 pmm).1 in
    (before.0 + before.1 ≡ 20) × (before.0 ≡ after.0 + 2) × (after.1 ≡ before.1 + 2)
get_pmm_page_counts-pmm_malloc_example =
    get_pmm_page_counts-pmm_malloc pmm 5000 (omega arith) (omega arith) (omega arith) bytes-IsBytes
      (omega (arith, malloc_addr))

-- A reserved region and two usable ones; kind 0 is usable.
abbrev low : Region
low = record { kind = 1; base = 0; length = 8192 }

abbrev middle : Region
middle = record { kind = 0; base = 8192; length = 16384 }

abbrev high : Region
high = record { kind = 0; base = 32768; length = 8192 }

abbrev regions : List Region
regions = low ∷ middle ∷ high ∷ []

abbrev booted : Pmm
booted = record pmm { highest_address = 40960 }

first_region : bitmap_region 0 (divide_round_up (40960 / 4096) 8) regions ≡ some middle
unfolding bitmap_region divide_round_up
first_region = refl
