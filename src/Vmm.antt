-- ===== src/Vmm.antt =====
-- The virtual memory manager: kernel/memory/virtual/vmm/vmm.cpp, over the physical one and the page
-- tables. The messages that it prints are left out.
pub mod Allocating
mod Tests
use esz_os.Base.{
  ℕ, zero, suc, ◌+◌, ◌-◌, ◌*◌, ◌/◌, ◌^◌, Bool, true, false, ◌||◌, ◌&&◌, not, ◌==◌, ltb,
  if◌then◌else◌, u64, Option, none, some,
}
use esz_os.Config.{page_size, virtual_offset_vmm}
use esz_os.Math.{divide_round_up}
use esz_os.Bitmap.{Bitmap, bit_write, clear, find_free_range, write_bits_in_range_from}
use esz_os.Pmm.{Pmm, pmm_malloc_page, pmm_malloc_addr, pmm_malloc_failed, pmm_free}
use esz_os.Paging.{PagingState, PagingFlags, PageTableEntry, page_walk, map_page, free_page}

pub record Vmm : Type 0 where
  pub paging : PagingState
  pub vmm_bitmap : Bitmap

abbrev pub page_flag_write : PagingFlags
page_flag_write = record { flag_write = true; flag_cache_disable = false }

abbrev pub with_pmm : PagingState → Pmm → PagingState
with_pmm s p = record s { pmm = p }

-- The address of page `n` of the range that the manager owns.
abbrev pub page_address : ℕ → ℕ
page_address n = u64 (n * page_size + virtual_offset_vmm)

-- The loop of `vmm_malloc_pages` at page `i` of the range, with what follows it.
unfoldable pub malloc_from : ℕ → ℕ → ℕ → ℕ → ℕ → Bool → Vmm → ℕ × Vmm
malloc_from zero i root req_pages page_range_begin success s =
    (if success then page_address page_range_begin else 0, s)
malloc_from (suc left) i root req_pages page_range_begin success s =
    let (phys, p) = pmm_malloc_page (s.paging.pmm) in
    let paging = with_pmm (s.paging) p in
    let (mapped, paging') =
      map_page root (page_address (page_range_begin + i)) phys page_flag_write paging in
    elim (phys == pmm_malloc_failed) [
      | true ↦ (
        0,
        record {
          paging = paging;
          vmm_bitmap = write_bits_in_range_from (s.vmm_bitmap) req_pages page_range_begin false;
        },
      )
      | false ↦
          malloc_from left (i + 1) root req_pages page_range_begin (mapped && success)
            (record s { paging = paging' })
    ]

-- What is done with the answer of the search for a range.
unfoldable pub malloc_found : ℕ → ℕ → ℕ × Bool → Vmm → ℕ × Vmm
unfolding malloc_from
malloc_found root req_pages (page_range_begin, false) s = (0, s)
malloc_found root req_pages (page_range_begin, true) s =
    malloc_from req_pages 0 root req_pages page_range_begin true (record s {
      vmm_bitmap = write_bits_in_range_from (s.vmm_bitmap) req_pages page_range_begin true;
    })

unfoldable pub vmm_malloc_pages : ℕ → ℕ → Vmm → ℕ × Vmm
unfolding malloc_found
vmm_malloc_pages root byte_amount s =
    let req_pages = divide_round_up byte_amount page_size in
    malloc_found root req_pages (find_free_range (s.vmm_bitmap) req_pages) s

-- The entry of a walk, if there is one and it is present.
unfoldable pub present_entry : Option (ℕ × ℕ) → PagingState → Option PageTableEntry
present_entry none s = none
present_entry (some (table, idx)) s =
    if (s.tables table idx).present then some (s.tables table idx) else none

-- What the loop of `vmm_free_pages` does for a page that is mapped.
unfoldable pub free_mapped : ℕ → ℕ → ℕ → PageTableEntry → Vmm → Bool × Vmm
free_mapped root curr_virt_addr curr_page entry s =
    let phys_addr = u64 (entry.address * 2 ^ 12) in
    let (freed, paging) = free_page root curr_virt_addr (s.paging) in
    let (given_back, p) = pmm_free phys_addr page_size (paging.pmm) in
    (
      freed && given_back,
      record {
        paging = with_pmm paging p;
        vmm_bitmap = record (s.vmm_bitmap) {
          bytes = bit_write (s.vmm_bitmap.bytes) curr_page false;
        };
      },
    )

-- The loop at page `i`. A page that is not mapped is left by `continue`, so that `curr_page` stays.
unfoldable pub free_from : ℕ → ℕ → ℕ → ℕ → ℕ → Bool → Vmm → Bool × Vmm
unfolding free_mapped
free_from zero i root virt_addr curr_page success s = (success, s)
free_from (suc left) i root virt_addr curr_page success s =
    let curr_virt_addr = u64 (virt_addr + i * page_size) in
    let (found, paging) = page_walk root curr_virt_addr (s.paging) in
    let walked = record s { paging = paging } in
    elim (present_entry found paging) [
      | none ↦ free_from left (i + 1) root virt_addr curr_page false walked
      | some entry ↦
          let (freed, s') = free_mapped root curr_virt_addr curr_page entry walked in
          free_from left (i + 1) root virt_addr (curr_page + 1) (freed && success) s'
    ]

unfoldable pub vmm_free_pages : ℕ → ℕ → ℕ → Vmm → Bool × Vmm
unfolding free_from
vmm_free_pages root virt_addr byte_amount s =
    free_from (divide_round_up byte_amount page_size) 0 root virt_addr
      (u64 (virt_addr + 2 ^ 64 - virtual_offset_vmm) / page_size) true s

-- The bitmap has as many bits as that of the physical pages. The `Bool` is what the source returns;
-- `memory` is what stands at the address that pmm_malloc_addr gave.
unfoldable pub init_vmm : ℕ → (ℕ → ℕ) → Vmm → Bool × Vmm
init_vmm hhdm_offset memory s =
    let count = s.paging.pmm.pmm_bitmap.count in
    let (address, p) = pmm_malloc_addr hhdm_offset (divide_round_up count 8) (s.paging.pmm) in
    if count == 0
    then (false, record s { vmm_bitmap = record { bytes = s.vmm_bitmap.bytes; count = count } })
    else if address == 0
    then (
      false,
      record {
        paging = with_pmm (s.paging) p;
        vmm_bitmap = record { bytes = memory; count = count };
      },
    )
    else (
      true,
      record {
        paging = with_pmm (s.paging) p;
        vmm_bitmap = clear (record { bytes = memory; count = count });
      },
    )
