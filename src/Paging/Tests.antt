-- ===== src/Paging/Tests.antt =====
-- Examples for the page tables.
use esz_os.Base.{
  ℕ, ◌+◌, ◌*◌, ◌^◌, ◌≤◌, some, u64, ◌<◌, ◌≡◌, ◌/◌, refl, arith, true, false, ◌==◌, if◌then◌else◌,
  ap, inl, inr, eq_or_ne,
}
use esz_os.Bitmap.{bit_read}
use esz_os.Pmm.{bytes_of}
use esz_os.Paging.{PagingState, PagingFlags, empty_entry, map_page, map_pages, free_page}
use esz_os.Config.{page_size}
use esz_os.Math.{divide_round_up}
use esz_os.Paging.Tables.{IsPaged}
use esz_os.Paging.Lookup.{IsTree}
use esz_os.Paging.Ranges.{map_pages_frames}
use esz_os.Paging.Mapping.{
  MapResult, FreeResult, frame_of, map_page-MapResult, free_page-FreeResult,
}

-- Sixteen pages, of which the first two are in use; the second is the root, and empty.
abbrev small_state : PagingState
small_state = record {
  pmm = record {
    pmm_bitmap = record { bytes = λ i. if i == 0 then 3 else 0; count = 16 };
    memory_region_count = 1;
    total_usable_bytes = 65536;
    highest_address = 65536;
  };
  tables = λ t i. empty_entry;
}

abbrev small_level : ℕ → ℕ
small_level t = if t == 4096 then 4 else 0

small_used : (t : ℕ) → 0 < small_level t → bit_read (bytes_of (small_state.pmm)) (t / 4096) ≡ true
unfolding bit_read
small_used t pos = elim (eq_or_ne t 4096) [
  | inl e ↦ ap (λ x. bit_read (bytes_of (small_state.pmm)) (x / 4096)) e
  | inr ne ↦ absurd (ground (arith, pos, ne))
]

small-IsPaged : IsPaged small_level 4096 small_state
unfolding bit_read
small-IsPaged = record {
  bytes = λ i. ground arith;
  few = omega arith;
  no_null = refl;
  null_used = refl;
  top = refl;
  used = small_used;
  fits = λ t i. omega arith;
  plain = λ t i high. refl;
  links = λ t i high p. absurd (ground (arith, p));
}

abbrev writable : PagingFlags
writable = record { flag_write = true; flag_cache_disable = false }

map_page-MapResult_example :
    MapResult 4096 0xB000 0x5000 (map_page 4096 0xB000 0x5000 writable small_state)
map_page-MapResult_example =
    map_page-MapResult small_level 4096 0xB000 0x5000 writable small_state small-IsPaged
      (omega arith)

free_page-FreeResult_example : FreeResult 4096 0xB000 (free_page 4096 0xB000 small_state)
free_page-FreeResult_example =
    free_page-FreeResult small_level 4096 0xB000 small_state small-IsPaged

small-IsTree : IsTree small_level small_state
small-IsTree t i t' i' deep deep' p p' e = absurd (ground (arith, p))

two_pages : divide_round_up 5000 page_size ≡ 2
unfolding divide_round_up
two_pages = refl

both_mapped : (map_pages 4096 0xB000 0x5000 writable 5000 small_state).0 ≡ true
unfolding map_pages esz_os.Paging.map_from map_page esz_os.Paging.page_walk
    esz_os.Paging.get_or_create_next_table esz_os.Paging.create_table esz_os.Paging.map_found
    divide_round_up esz_os.Bitmap.find_free_range esz_os.Bitmap.search_range bit_read
    esz_os.Bitmap.write_bits esz_os.Pmm.pmm_malloc_page esz_os.Pmm.pmm_malloc
    esz_os.Pmm.pmm_malloc_found esz_os.Bitmap.bit_write esz_os.Bitmap.bit_set esz_os.Base.store
both_mapped = refl

map_pages_frames_example :
    frame_of
      ((map_pages 4096 0xB000 0x5000 writable 5000 small_state).1.tables)
      4096
      (u64 (0xB000 + 1 * page_size))
    ≡ some ((0x5000 + 1 * page_size) / 4096 * 4096)
map_pages_frames_example =
    map_pages_frames small_level 4096 0xB000 0x5000 writable 5000 small_state 1 small-IsPaged
      small-IsTree (omega (arith, two_pages)) (omega (arith, two_pages)) both_mapped
      (omega (arith, two_pages))
