-- ===== src/Vmm/Tests.antt =====
-- Examples for the virtual memory manager.
use esz_os.Base.{
  ℕ, ◌^◌, ◌<◌, ◌≤◌, ◌≡◌, ◌≢◌, ◌/◌, refl, arith, true, false, ◌==◌, if◌then◌else◌, ap, inl, inr,
  eq_or_ne,
}
use esz_os.Config.{page_size, virtual_offset_vmm}
use esz_os.Math.{divide_round_up}
use esz_os.Bitmap.{bit_read}
use esz_os.Pmm.{bytes_of}
use esz_os.Paging.{PagingState, empty_entry}
use esz_os.Paging.Tables.{IsPaged}
use esz_os.Paging.Lookup.{IsTree}
use esz_os.Vmm.{Vmm, vmm_malloc_pages, vmm_free_pages}
use esz_os.Vmm.Allocating.{IsBackedRange, vmm_malloc_pages-IsBackedRange}

-- Sixteen pages, of which the first two are in use; the second is the root, and empty.
abbrev small_paging : PagingState
small_paging = record {
  pmm = record {
    pmm_bitmap = record { bytes = λ i. if i == 0 then 3 else 0; count = 16 };
    memory_region_count = 1;
    total_usable_bytes = 65536;
    highest_address = 65536;
  };
  tables = λ t i. empty_entry;
}

abbrev small_vmm : Vmm
small_vmm = record { paging = small_paging; vmm_bitmap = record { bytes = λ i. 0; count = 16 } }

abbrev small_level : ℕ → ℕ
small_level t = if t == 4096 then 4 else 0

small_used : (t : ℕ) → 0 < small_level t → bit_read (bytes_of (small_paging.pmm)) (t / 4096) ≡ true
unfolding bit_read
small_used t pos = elim (eq_or_ne t 4096) [
  | inl e ↦ ap (λ x. bit_read (bytes_of (small_paging.pmm)) (x / 4096)) e
  | inr ne ↦ absurd (ground (arith, pos, ne))
]

small-IsPaged : IsPaged small_level 4096 small_paging
unfolding bit_read
small-IsPaged = record {
  bytes = λ i. ground arith;
  few = omega arith;
  no_null = refl;
  null_used = refl;
  top = refl;
  used = small_used;
  fits = λ t i. omega arith;
  plain = λ t i high. refl;
  links = λ t i high p. absurd (ground (arith, p));
}

small-IsTree : IsTree small_level small_paging
small-IsTree t i t' i' deep deep' p p' e = absurd (ground (arith, p))

few_pages : divide_round_up 5000 page_size ≤ 2 ^ 36
unfolding divide_round_up
few_pages = omega arith

second_page : 1 < divide_round_up 5000 page_size
unfolding divide_round_up
second_page = omega arith

at_start : (vmm_malloc_pages 4096 5000 small_vmm).0 ≡ virtual_offset_vmm
unfolding vmm_malloc_pages esz_os.Vmm.malloc_found esz_os.Vmm.malloc_from divide_round_up
    esz_os.Bitmap.find_free_range esz_os.Bitmap.search_range bit_read esz_os.Bitmap.write_bits
    esz_os.Bitmap.write_bits_in_range_from esz_os.Pmm.pmm_malloc_page esz_os.Pmm.pmm_malloc
    esz_os.Pmm.pmm_malloc_found esz_os.Paging.map_page esz_os.Paging.page_walk
    esz_os.Paging.get_or_create_next_table esz_os.Paging.create_table esz_os.Paging.map_found
    esz_os.Bitmap.bit_write esz_os.Bitmap.bit_set esz_os.Base.store
at_start = refl

some_address : (vmm_malloc_pages 4096 5000 small_vmm).0 ≢ 0
some_address e = absurd (omega (arith, at_start, e))

vmm_malloc_pages-IsBackedRange_example :
    IsBackedRange 4096
      (divide_round_up 5000 page_size)
      small_vmm
      0
      1
      (vmm_malloc_pages 4096 5000 small_vmm)
vmm_malloc_pages-IsBackedRange_example =
    vmm_malloc_pages-IsBackedRange small_level 4096 5000 small_vmm 0 1 small-IsPaged small-IsTree
      (λ i. omega arith) few_pages second_page some_address
