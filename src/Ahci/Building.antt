-- ===== src/Ahci/Building.antt =====
-- The commands that kernel/io/ahci/ahci.cpp builds, and where their pages lie.
use esz_os.Base.{
  ℕ, ◌+◌, ◌*◌, ◌/◌, ◌^◌, ◌<◌, ◌≤◌, ◌≡◌, ◌≢◌, inl, inr, refl, ◌∙◌, ap, sym, subst, arith, Bool, true,
  false, ◌==◌, ltb, if◌then◌else◌, Buffer, IsBytes, u32, u64, Bool-cases,
}
use esz_os.Config.{page_size}
use esz_os.Math.{divide_round_up}
use esz_os.Pmm.{Pmm, bytes_of, pmm_malloc, pmm_malloc_page, pmm_malloc_pages, pmm_malloc_failed}
use esz_os.Pmm.Malloc.{Allocated, taken, full, pmm_malloc-Allocated}
use esz_os.Ahci.{
  read_dma_ext, CommandHeader, CommandTable, Controller, Ahci, clear_table, clear_memory, put_table,
  put_header, allocate_command_table, allocate_data_buffer, set_command_header, fill_lba_address,
  fill_sector_quantity, set_ahci_prdt, build_command, start_command, sector_command, with_command,
}

-- The sector and the number of sectors, as a controller reads them from a table.
abbrev pub lba_of : CommandTable → ℕ
lba_of t =
    t.lba0 + 2 ^ 8 * t.lba1 + 2 ^ 16 * t.lba2 + 2 ^ 24 * t.lba3 + 2 ^ 32 * t.lba4 + 2 ^ 40 * t.lba5

abbrev pub count_of : CommandTable → ℕ
count_of t = t.count_low + 2 ^ 8 * t.count_high

-- A controller with a disk behind it: a read command that has finished filled the region of the
-- table with the sectors that the table names, and changed no other memory. The command is one that
-- the controller takes: a register FIS from the host of five words with its command bit set, in the
-- addressing by sectors, with one region of just the size of the sectors.
pub record IsDisk (disk : Buffer) (controller : Controller) : Type 0 where
  pub reads :
      (h : CommandHeader) (t : CommandTable) (m : Buffer) (i : ℕ)
      → h.is_write ≡ false
      → h.cfl ≡ 5
      → h.prdtl ≡ 1
      → t.fis_type ≡ 0x27
      → t.is_command ≡ true
      → t.command ≡ read_dma_ext
      → t.device ≡ 0x40
      → count_of t * 512 ≡ t.dbc + 1
      → controller.transfer h t m (t.dba + 2 ^ 32 * t.dbau + i)
        ≡ (if ltb i (t.dbc + 1) then disk (lba_of t * 512 + i) else m (t.dba + 2 ^ 32 * t.dbau + i))

-- The bytes of the FIS give the sector and the number again.
pub sector_command_lem :
    (code lba sector_quantity data_address : ℕ) (t : CommandTable)
    → lba < 2 ^ 48
    → 0 < sector_quantity
    → sector_quantity ≤ 2 ^ 13
    → (lba_of (sector_command code lba sector_quantity data_address t) ≡ lba)
      × (count_of (sector_command code lba sector_quantity data_address t) ≡ sector_quantity)
      × ((sector_command code lba sector_quantity data_address t).dbc + 1 ≡ sector_quantity * 512)
unfolding fill_lba_address fill_sector_quantity set_ahci_prdt build_command
sector_command_lem code lba sector_quantity data_address t small pos few =
    (omega (arith, small), omega (arith, few), omega (arith, pos, few))

pub sector_command_fields :
    (code lba sector_quantity data_address : ℕ) (t : CommandTable)
    → ((sector_command code lba sector_quantity data_address t).dba ≡ u32 data_address)
      × ((sector_command code lba sector_quantity data_address t).dbau ≡ 0)
      × ((sector_command code lba sector_quantity data_address t).fis_type ≡ 0x27)
      × ((sector_command code lba sector_quantity data_address t).is_command ≡ true)
      × ((sector_command code lba sector_quantity data_address t).command ≡ code)
      × ((sector_command code lba sector_quantity data_address t).device ≡ 0x40)
unfolding fill_lba_address fill_sector_quantity set_ahci_prdt build_command
sector_command_fields code lba sector_quantity data_address t = (refl, refl, refl, refl, refl, refl)

-- What an allocation of pages below 4 GiB gives.
pub record IsLow (p : Pmm) (r : ℕ × Pmm) : Type 0 where
  pub low : r.0 ≢ pmm_malloc_failed → r.0 < 2 ^ 32
  pub bytes : IsBytes (bytes_of (r.1))
  pub count : r.1.pmm_bitmap.count ≡ p.pmm_bitmap.count

pub Allocated-IsLow :
    (p : Pmm) (n : ℕ) (r : ℕ × Pmm)
    → 0 < n
    → p.pmm_bitmap.count ≤ 2 ^ 20
    → IsBytes (bytes_of p)
    → Allocated p n r
    → IsLow p r
Allocated-IsLow p n _ pos few ok (full no_fit) = record {
  low = λ ne. absurd (ne refl);
  bytes = ok;
  count = refl;
}
Allocated-IsLow p n _ pos few ok (taken start p' fit marked ok' same) = record {
  low = λ ne. omega (arith, fit.inside, pos, few);
  bytes = ok';
  count = same;
}

pub page-IsLow :
    (p : Pmm) → p.pmm_bitmap.count ≤ 2 ^ 20 → IsBytes (bytes_of p) → IsLow p (pmm_malloc_page p)
unfolding pmm_malloc_page
page-IsLow p few ok =
    Allocated-IsLow p 1 (pmm_malloc page_size p) (omega arith) few ok
      (pmm_malloc-Allocated p 4096 (omega arith) (omega arith) (omega (arith, few)) ok)

pub pages-IsLow :
    (p : Pmm) (n : ℕ)
    → 0 < n
    → n < 2 ^ 37
    → p.pmm_bitmap.count ≤ 2 ^ 20
    → IsBytes (bytes_of p)
    → IsLow p (pmm_malloc_pages n p)
unfolding pmm_malloc_pages
pages-IsLow p n pos small few ok =
    let exact : u64 (page_size * n) ≡ 4096 * n = omega (arith, small) in
    subst (λ b. IsLow p (pmm_malloc b p)) (sym exact)
      (Allocated-IsLow p ((4096 * n + 4095) / 4096) (pmm_malloc (4096 * n) p) (omega (arith, pos))
        few ok
        (pmm_malloc-Allocated p (4096 * n) (omega (arith, pos)) (omega (arith, small))
          (omega (arith, few)) ok))

abbrev table_choice : Ahci → ℕ × Pmm → Bool → ℕ × Ahci
table_choice s r b =
    if b
    then (pmm_malloc_failed, record s { pmm = r.1 })
    else (r.0, record s { pmm = r.1; tables = put_table (s.tables) (r.0) clear_table })

pub table_address_lem : (s : Ahci) → (allocate_command_table s).0 ≡ (pmm_malloc_page (s.pmm)).0
unfolding allocate_command_table put_table
table_address_lem s =
    let r = pmm_malloc_page (s.pmm) in
    elim (Bool-cases (r.0 == pmm_malloc_failed)) [
      | inl gone ↦ ap (λ b. (table_choice s r b).0) gone ∙ ground (arith, gone)
      | inr there ↦ ap (λ b. (table_choice s r b).0) there
    ]

pub table_pmm : (s : Ahci) → (allocate_command_table s).1.pmm ≡ (pmm_malloc_page (s.pmm)).1
unfolding allocate_command_table put_table
table_pmm s =
    let r = pmm_malloc_page (s.pmm) in
    elim (Bool-cases (r.0 == pmm_malloc_failed)) [
      | inl gone ↦ ap (λ b. (table_choice s r b).1.pmm) gone
      | inr there ↦ ap (λ b. (table_choice s r b).1.pmm) there
    ]

abbrev data_choice : ℕ → Ahci → ℕ × Pmm → Bool → ℕ × Ahci
data_choice required_pages s r b = if b then (pmm_malloc_failed, record s { pmm = r.1 }) else (
  r.0,
  record s { pmm = r.1; memory = clear_memory (s.memory) (r.0) (page_size * required_pages) },
)

pub data_address_lem :
    (size : ℕ) (s : Ahci)
    → (allocate_data_buffer size s).0
      ≡ (pmm_malloc_pages (divide_round_up size page_size) (s.pmm)).0
unfolding allocate_data_buffer clear_memory
data_address_lem size s =
    let n = divide_round_up size page_size in
    let r = pmm_malloc_pages n (s.pmm) in
    elim (Bool-cases (r.0 == pmm_malloc_failed)) [
      | inl gone ↦ ap (λ b. (data_choice n s r b).0) gone ∙ ground (arith, gone)
      | inr there ↦ ap (λ b. (data_choice n s r b).0) there
    ]

abbrev pub header_of : ℕ → Bool → CommandHeader
header_of table_address is_write = record {
  ctba = u32 table_address;
  ctbau = 0;
  cfl = 5;
  is_write = is_write;
  prdtl = 1;
}

module _ (clb table_address : ℕ) (is_write : Bool) (fill : CommandTable → CommandTable)
    (s : Ahci) where
  header_lem :
      (with_command clb table_address is_write fill s).headers clb
      ≡ header_of table_address is_write
  unfolding with_command set_command_header put_header
  header_lem =
      let z : (clb == clb) ≡ true = ground arith in
      ap (λ b. if b then header_of table_address is_write else s.headers clb) z

  command_lem :
      table_address < 2 ^ 32
      → (with_command clb table_address is_write fill s).tables (u32 table_address + 2 ^ 32 * 0)
        ≡ fill (s.tables table_address)
  unfolding with_command put_table set_command_header
  command_lem low =
      let z : (u32 table_address + 2 ^ 32 * 0 == table_address) ≡ true = ground (arith, low) in
      ap
        (λ b.
          if b then fill (s.tables table_address) else s.tables (u32 table_address + 2 ^ 32 * 0))
        z

  pub started_memory :
      (controller : Controller)
      → table_address < 2 ^ 32
      → (start_command controller true clb (with_command clb table_address is_write fill s)).memory
        ≡ controller.transfer
            (header_of table_address is_write)
            (fill (s.tables table_address))
            (s.memory)
  unfolding start_command with_command
  started_memory controller low =
      let w = with_command clb table_address is_write fill s in
      ap
        (λ (h : CommandHeader).
          controller.transfer h (w.tables (h.ctba + 2 ^ 32 * h.ctbau)) (w.memory))
        header_lem
      ∙ ap (λ t. controller.transfer (header_of table_address is_write) t (s.memory))
          (command_lem low)
