-- ===== src/Paging.antt =====
-- The page tables: kernel/memory/virtual/paging/paging.cpp and paging.h. A table is named by its
-- physical address; the code reads it at that address plus `hhdm_offset`. `root` is what the
-- register cr3 holds. The flushing of the translation cache has no state here.
pub mod Tables
pub mod Entering
pub mod Stepping
pub mod Walk
pub mod Lookup
pub mod Finding
pub mod Isolation
pub mod Ranges
pub mod Mapping
mod Tests
use esz_os.Base.{
  ℕ, zero, suc, ◌+◌, ◌*◌, ◌/◌, ◌%◌, ◌^◌, Bool, true, false, ◌&&◌, ◌==◌, if◌then◌else◌, u64, Option,
  none, some,
}
use esz_os.Config.{page_size}
use esz_os.Math.{divide_round_up}
use esz_os.Pmm.{Pmm, pmm_malloc_page, pmm_malloc_failed}

-- The bit fields of an entry; `address` has 40 bits.
pub record PageTableEntry : Type 0 where
  pub present : Bool
  pub read_write : Bool
  pub user_supervisor : Bool
  pub write_through : Bool
  pub cache_disabled : Bool
  pub accessed : Bool
  pub dirty : Bool
  pub page_size_or_pat : Bool
  pub global : Bool
  pub available : ℕ
  pub address : ℕ
  pub reserved : ℕ
  pub no_execute : Bool

abbrev pub empty_entry : PageTableEntry
empty_entry = record {
  present = false;
  read_write = false;
  user_supervisor = false;
  write_through = false;
  cache_disabled = false;
  accessed = false;
  dirty = false;
  page_size_or_pat = false;
  global = false;
  available = 0;
  address = 0;
  reserved = 0;
  no_execute = false;
}

-- The memory manager and the entries of the tables, by the address of the table and the index.
pub record PagingState : Type 0 where
  pub pmm : Pmm
  pub tables : ℕ → ℕ → PageTableEntry

unfoldable pub put_entry :
    (ℕ → ℕ → PageTableEntry) → ℕ → ℕ → PageTableEntry → ℕ → ℕ → PageTableEntry
put_entry tables table idx e t i = if t == table && i == idx then e else tables t i

-- `memory_clear` of one page of tables.
unfoldable pub clear_table : (ℕ → ℕ → PageTableEntry) → ℕ → ℕ → ℕ → PageTableEntry
clear_table tables table t i = if t == table then empty_entry else tables t i

unfoldable pub get_pml4_index : ℕ → ℕ
get_pml4_index address = address / 2 ^ 39 % 512

unfoldable pub get_pdpt_index : ℕ → ℕ
get_pdpt_index address = address / 2 ^ 30 % 512

unfoldable pub get_pd_index : ℕ → ℕ
get_pd_index address = address / 2 ^ 21 % 512

unfoldable pub get_pt_index : ℕ → ℕ
get_pt_index address = address / 2 ^ 12 % 512

-- The two bits of `PagingFlags`.
pub record PagingFlags : Type 0 where
  pub flag_write : Bool
  pub flag_cache_disable : Bool

unfoldable pub handle_read_write_flag : PagingFlags → PageTableEntry → PageTableEntry
handle_read_write_flag flags e = record e { read_write = flags.flag_write }

unfoldable pub handle_cache_disable_flag : PagingFlags → PageTableEntry → PageTableEntry
handle_cache_disable_flag flags e = record e { cache_disabled = flags.flag_cache_disable }

-- What a new table leaves behind: the table cleared, and its address in the entry above.
unfoldable pub enter_table : ℕ → ℕ → ℕ → (ℕ → ℕ → PageTableEntry) → ℕ → ℕ → PageTableEntry
unfolding clear_table put_entry
enter_table fresh table idx tables =
    let cleared = clear_table tables fresh in
    put_entry cleared table idx (record (cleared table idx) {
      present = true;
      read_write = true;
      address = fresh / 2 ^ 12 % 2 ^ 40;
    })

unfoldable pub create_table : ℕ → ℕ → ℕ × Pmm → PagingState → ℕ × PagingState
unfolding enter_table
create_table table idx (fresh, pmm') s =
    if fresh == pmm_malloc_failed
    then (0, record { pmm = pmm'; tables = s.tables })
    else (fresh, record { pmm = pmm'; tables = enter_table fresh table idx (s.tables) })

-- 0 stands for a failure. An entry that is present is followed as a table, whatever its bit for a
-- large page says.
unfoldable pub get_or_create_next_table : ℕ → ℕ → PagingState → ℕ × PagingState
unfolding create_table
get_or_create_next_table table idx s =
    if (s.tables table idx).present
    then (u64 ((s.tables table idx).address * 2 ^ 12), s)
    else create_table table idx (pmm_malloc_page (s.pmm)) s

-- The entry for a virtual address, as table and index; `none` is the null pointer.
unfoldable pub page_walk : ℕ → ℕ → PagingState → Option (ℕ × ℕ) × PagingState
unfolding get_or_create_next_table get_pml4_index get_pdpt_index get_pd_index get_pt_index
page_walk root virtual_address s =
    let (table1, s1) = get_or_create_next_table root (get_pml4_index virtual_address) s in
    let (table2, s2) = get_or_create_next_table table1 (get_pdpt_index virtual_address) s1 in
    let (table3, s3) = get_or_create_next_table table2 (get_pd_index virtual_address) s2 in
    if table1 == 0
    then (none, s1)
    else if table2 == 0
    then (none, s2)
    else if table3 == 0
    then (none, s3)
    else (some (table3, get_pt_index virtual_address), s3)

unfoldable pub mapped_entry : ℕ → PagingFlags → PageTableEntry → PageTableEntry
unfolding handle_read_write_flag handle_cache_disable_flag
mapped_entry physical_address flags e =
    record (handle_cache_disable_flag flags
      (handle_read_write_flag flags (record e { present = true }))) {
        address = physical_address / 2 ^ 12 % 2 ^ 40;
      }

unfoldable pub map_found : ℕ → PagingFlags → Option (ℕ × ℕ) × PagingState → Bool × PagingState
unfolding mapped_entry put_entry
map_found physical_address flags (none, s) = (false, s)
map_found physical_address flags (some (table, idx), s) = (
  true,
  record {
    pmm = s.pmm;
    tables =
        put_entry (s.tables) table idx (mapped_entry physical_address flags (s.tables table idx));
  },
)

unfoldable pub map_page : ℕ → ℕ → ℕ → PagingFlags → PagingState → Bool × PagingState
unfolding page_walk map_found
map_page root virtual_address physical_address flags s =
    map_found physical_address flags (page_walk root virtual_address s)

-- The loop of `map_pages` at page `i`.
unfoldable pub map_from : ℕ → ℕ → ℕ → ℕ → ℕ → PagingFlags → Bool → PagingState → Bool × PagingState
unfolding map_page
map_from zero i root virtual_address physical_address flags success s = (success, s)
map_from (suc left) i root virtual_address physical_address flags success s =
    let (done, s') =
      map_page root (u64 (virtual_address + i * page_size)) (u64 (physical_address + i * page_size))
        flags s in
    map_from left (i + 1) root virtual_address physical_address flags (done && success) s'

unfoldable pub map_pages : ℕ → ℕ → ℕ → PagingFlags → ℕ → PagingState → Bool × PagingState
map_pages root virtual_address physical_address flags required_size s =
    map_from (divide_round_up required_size page_size) 0 root virtual_address physical_address flags
      true s

unfoldable pub free_found : Option (ℕ × ℕ) × PagingState → Bool × PagingState
unfolding put_entry
free_found (none, s) = (false, s)
free_found (some (table, idx), s) =
    (true, record { pmm = s.pmm; tables = put_entry (s.tables) table idx empty_entry })

unfoldable pub free_page : ℕ → ℕ → PagingState → Bool × PagingState
unfolding page_walk free_found
free_page root virtual_address s = free_found (page_walk root virtual_address s)

unfoldable pub free_from : ℕ → ℕ → ℕ → ℕ → Bool → PagingState → Bool × PagingState
unfolding free_page
free_from zero i root virtual_address success s = (success, s)
free_from (suc left) i root virtual_address success s =
    let (done, s') = free_page root (u64 (virtual_address + i * page_size)) s in
    free_from left (i + 1) root virtual_address (done && success) s'

unfoldable pub free_pages : ℕ → ℕ → ℕ → PagingState → Bool × PagingState
free_pages root virtual_address required_size s =
    free_from (divide_round_up required_size page_size) 0 root virtual_address true s
