-- ===== src/Ahci/Commands.antt =====
-- The commands of kernel/io/ahci/ahci.cpp: their tables, their data and running them.
use esz_os.Base.{
  ℕ, zero, suc, ◌+◌, ◌-◌, ◌*◌, ◌/◌, ◌%◌, ◌^◌, Bool, true, false, ◌&&◌, ◌||◌, ◌==◌, ltb, leb,
  if◌then◌else◌, Buffer, store, u8, u32, Option, none, some,
}
use esz_os.Config.{page_size, sector_size_bytes}
use esz_os.Math.{divide_round_up}
use esz_os.Str.{str_copy}
use esz_os.Edit.{str_trim_end}
use esz_os.Pmm.{Pmm, pmm_malloc_page, pmm_malloc_pages, pmm_malloc_failed}
use esz_os.Ahci.Port.{await_task_finish}

abbrev pub read_dma_ext : ℕ
read_dma_ext = 0x25

abbrev pub write_dma_ext : ℕ
write_dma_ext = 0x35

abbrev pub identify_device : ℕ
identify_device = 0xEC

abbrev pub flush_ext : ℕ
flush_ext = 0xEA

-- The fields of an entry of the command list that the driver sets.
pub record CommandHeader : Type 0 where
  pub ctba : ℕ
  pub ctbau : ℕ
  pub cfl : ℕ
  pub is_write : Bool
  pub prdtl : ℕ

-- The fields of a command table that the driver sets: the register FIS and the one region.
pub record CommandTable : Type 0 where
  pub fis_type : ℕ
  pub is_command : Bool
  pub command : ℕ
  pub device : ℕ
  pub lba0 : ℕ
  pub lba1 : ℕ
  pub lba2 : ℕ
  pub lba3 : ℕ
  pub lba4 : ℕ
  pub lba5 : ℕ
  pub count_low : ℕ
  pub count_high : ℕ
  pub dba : ℕ
  pub dbau : ℕ
  pub dbc : ℕ

abbrev pub clear_table : CommandTable
clear_table = record {
  fis_type = 0;
  is_command = false;
  command = 0;
  device = 0;
  lba0 = 0;
  lba1 = 0;
  lba2 = 0;
  lba3 = 0;
  lba4 = 0;
  lba5 = 0;
  count_low = 0;
  count_high = 0;
  dba = 0;
  dbau = 0;
  dbc = 0;
}

-- What the controller does with a command: the memory when it has finished, the memory when the
-- driver gives up waiting, and whether the bit in CI is still set at a poll.
pub record Controller : Type 0 where
  pub transfer : CommandHeader → CommandTable → Buffer → Buffer
  pub unfinished : CommandHeader → CommandTable → Buffer → Buffer
  pub busy : ℕ → Bool

pub record Ahci : Type 0 where
  pub pmm : Pmm
  pub memory : Buffer
  pub headers : ℕ → CommandHeader
  pub tables : ℕ → CommandTable

-- `text[i]` and `text[i + 1]` change places, for every even `i` below the length.
unfoldable pub byteswap_from : ℕ → ℕ → Buffer → Buffer
byteswap_from zero i text = text
byteswap_from (suc left) i text =
    byteswap_from left (i + 2) (store (store text i (text (i + 1))) (i + 1) (text i))

unfoldable pub ata_string_byteswap : ℕ → Buffer → Buffer
ata_string_byteswap length text = byteswap_from ((length + 1) / 2) 0 text

unfoldable pub put_header : (ℕ → CommandHeader) → ℕ → CommandHeader → ℕ → CommandHeader
put_header headers clb h a = if a == clb then h else headers a

unfoldable pub put_table : (ℕ → CommandTable) → ℕ → CommandTable → ℕ → CommandTable
put_table tables address t a = if a == address then t else tables a

-- `size` zeros from an address on.
unfoldable pub clear_memory : Buffer → ℕ → ℕ → Buffer
clear_memory memory address size i = if leb address i && ltb i (address + size) then 0 else memory i

unfoldable pub allocate_command_table : Ahci → ℕ × Ahci
unfolding put_table
allocate_command_table s =
    let (address, p) = pmm_malloc_page (s.pmm) in
    if address == pmm_malloc_failed
    then (pmm_malloc_failed, record s { pmm = p })
    else (address, record s { pmm = p; tables = put_table (s.tables) address clear_table })

unfoldable pub allocate_data_buffer : ℕ → Ahci → ℕ × Ahci
unfolding clear_memory
allocate_data_buffer data_size s =
    let required_pages = divide_round_up data_size page_size in
    let (address, p) = pmm_malloc_pages required_pages (s.pmm) in
    if address == pmm_malloc_failed then (pmm_malloc_failed, record s { pmm = p }) else (
      address,
      record s { pmm = p; memory = clear_memory (s.memory) address (page_size * required_pages) },
    )

unfoldable pub set_command_header : ℕ → ℕ → Bool → Ahci → Ahci
unfolding put_header
set_command_header clb table_address is_write s = record s {
  headers =
      put_header (s.headers) clb
        record { ctba = u32 table_address; ctbau = 0; cfl = 5; is_write = is_write; prdtl = 1 };
}

unfoldable pub build_command : ℕ → CommandTable → CommandTable
build_command code t = record t { fis_type = 0x27; is_command = true; command = code }

unfoldable pub fill_lba_address : ℕ → CommandTable → CommandTable
fill_lba_address lba t = record t {
  device = 0x40;
  lba0 = u8 lba;
  lba1 = u8 (lba / 2 ^ 8);
  lba2 = u8 (lba / 2 ^ 16);
  lba3 = u8 (lba / 2 ^ 24);
  lba4 = u8 (lba / 2 ^ 32);
  lba5 = u8 (lba / 2 ^ 40);
}

unfoldable pub fill_sector_quantity : ℕ → CommandTable → CommandTable
fill_sector_quantity quantity t = record t {
  count_low = u8 quantity;
  count_high = u8 (quantity / 2 ^ 8);
}

-- `dataSize - 1` goes to a field of 22 bits.
unfoldable pub set_ahci_prdt : ℕ → ℕ → CommandTable → CommandTable
set_ahci_prdt data_address data_size t = record t {
  dba = u32 data_address;
  dbau = 0;
  dbc = u32 (data_size + 2 ^ 32 - 1) % 2 ^ 22;
}

-- The controller follows the command list of the port to the table.
unfoldable pub start_command : Controller → Bool → ℕ → Ahci → Ahci
start_command controller finished clb s =
    let header = s.headers clb in
    let table = s.tables (header.ctba + 2 ^ 32 * header.ctbau) in
    record s {
      memory =
          if finished
          then controller.transfer header table (s.memory)
          else controller.unfinished header table (s.memory);
    }

unfoldable pub run_command : Controller → ℕ → ℕ → Ahci → (Bool × ℕ) × Ahci
unfolding start_command
run_command controller clb time s =
    let answer = await_task_finish (controller.busy) time in
    (answer, start_command controller (answer.0) clb s)

abbrev pub data_size_of : ℕ → ℕ
data_size_of sector_quantity = u32 (sector_quantity * sector_size_bytes)

-- The bytes that `memory_copy` takes from an address on.
unfoldable pub copy_from : Buffer → ℕ → Buffer → ℕ → Buffer
copy_from out size memory address i = if ltb i size then memory (address + i) else out i

-- The command that reads or writes sectors, with everything in place.
abbrev pub sector_command : ℕ → ℕ → ℕ → ℕ → CommandTable → CommandTable
sector_command code lba sector_quantity data_address t =
    set_ahci_prdt data_address (data_size_of sector_quantity)
      (fill_sector_quantity sector_quantity (fill_lba_address lba (build_command code t)))

unfoldable pub with_command : ℕ → ℕ → Bool → (CommandTable → CommandTable) → Ahci → Ahci
unfolding set_command_header put_table
with_command clb table_address is_write fill s =
    let s' = set_command_header clb table_address is_write s in
    record s' { tables = put_table (s'.tables) table_address (fill (s'.tables table_address)) }

-- `AHCI_READ_DMA_EXT` on the port with the command list at `clb`; `out` is the buffer.
unfoldable pub ahci_read_dma_ext : Controller → ℕ → ℕ → ℕ → Buffer → Ahci → Buffer × Ahci
unfolding allocate_command_table allocate_data_buffer with_command run_command copy_from
    build_command fill_lba_address fill_sector_quantity set_ahci_prdt
ahci_read_dma_ext controller clb lba sector_quantity out s =
    let (table_address, s1) = allocate_command_table s in
    let data_size = data_size_of sector_quantity in
    let (data_address, s2) = allocate_data_buffer data_size s1 in
    let s3 =
      with_command clb table_address false
        (sector_command read_dma_ext lba sector_quantity data_address) s2 in
    let (_, s4) = run_command controller clb 0 s3 in
    if table_address == pmm_malloc_failed || data_address == pmm_malloc_failed
    then (out, s2)
    else (copy_from out data_size (s4.memory) data_address, s4)

unfoldable pub ahci_write_dma_ext : Controller → ℕ → ℕ → ℕ → Buffer → Ahci → Ahci
unfolding allocate_command_table allocate_data_buffer with_command run_command build_command
    fill_lba_address fill_sector_quantity set_ahci_prdt
ahci_write_dma_ext controller clb lba sector_quantity input s =
    let (table_address, s1) = allocate_command_table s in
    let data_size = data_size_of sector_quantity in
    let (data_address, s2) = allocate_data_buffer data_size s1 in
    let s3 =
      with_command clb table_address true
        (sector_command write_dma_ext lba sector_quantity data_address) s2 in
    let filled = record s3 {
      memory = λ i.
          if leb data_address i && ltb i (data_address + data_size)
          then input (i - data_address)
          else s3.memory i;
    } in
    let (_, s4) = run_command controller clb 0 filled in
    if table_address == pmm_malloc_failed || data_address == pmm_malloc_failed then s2 else s4

-- Serial number and model in the bytes of the answer, `fresh` as in the text operations.
unfoldable pub identify_text : Buffer → Buffer → ℕ → ℕ → Buffer
unfolding ata_string_byteswap
identify_text fresh response offset length =
    let swapped = ata_string_byteswap length (λ i. response (offset + i)) in
    str_copy swapped (str_trim_end fresh swapped)

-- `Get_AHCI_IdentifyResponse`: both texts in order and terminated, in the bytes from an address on.
unfoldable pub get_identify_response : Buffer → Buffer → ℕ → Buffer
unfolding identify_text store
get_identify_response fresh memory address =
    let response = store (store (λ i. memory (address + i)) 40 0) 94 0 in
    let serial = identify_text fresh response 20 20 in
    let with_serial : Buffer = λ i. if leb 20 i && ltb i 41 then serial (i - 20) else response i in
    let model = identify_text fresh with_serial 54 40 in
    λ i. if leb 54 i && ltb i 95 then model (i - 54) else with_serial i

-- `none` is the null pointer.
unfoldable pub ahci_identify_device : Controller → ℕ → Buffer → Ahci → Option Buffer × Ahci
unfolding allocate_command_table allocate_data_buffer with_command run_command build_command
    set_ahci_prdt get_identify_response
ahci_identify_device controller clb fresh s =
    let (table_address, s1) = allocate_command_table s in
    let (data_address, s2) = allocate_data_buffer page_size s1 in
    let s3 =
      with_command clb table_address false
        (λ t. set_ahci_prdt data_address sector_size_bytes (build_command identify_device t)) s2 in
    let (answer, s4) = run_command controller clb 0 s3 in
    if table_address == pmm_malloc_failed || data_address == pmm_malloc_failed
    then (none, s2)
    else if answer.0
    then (some (get_identify_response fresh (s4.memory) data_address), s4)
    else (none, s4)

unfoldable pub ahci_flush_cache_ext : Controller → ℕ → Ahci → Ahci
unfolding allocate_command_table with_command run_command build_command put_header
ahci_flush_cache_ext controller clb s =
    let (table_address, s1) = allocate_command_table s in
    let s2 = with_command clb table_address false (build_command flush_ext) s1 in
    let s3 = record s2 {
      headers = put_header (s2.headers) clb (record (s2.headers clb) { prdtl = 0 });
    } in
    let (_, s4) = run_command controller clb 0 s3 in
    if table_address == pmm_malloc_failed then s1 else s4
