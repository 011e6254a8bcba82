-- ===== src/Ahci/Tests.antt =====
-- Examples for the disk driver, with a controller that answers at once.
use esz_os.Base.{
  ◌+◌, ◌-◌, ◌*◌, ◌^◌, ◌≤◌, ◌≡◌, ◌↔◌, inl, inr, refl, ◌∙◌, ap, sym, arith, true, false, ◌&&◌, not,
  ltb, leb, if◌then◌else◌, Buffer, Bool-cases,
}
use esz_os.Ahci.{
  PortCommand, Monitor, CommandHeader, CommandTable, clear_table, clear_header, Controller, Ahci,
  await_task_finish, set_sata_port_status, ahci_read_dma_ext,
}
use esz_os.Ahci.Await.{ComesInTime, await_task_finish_iff}
use esz_os.Ahci.Switching.{IsStarted, IsStopped, set_sata_port_status-IsSwitched}
use esz_os.Ahci.Building.{IsDisk, lba_of}
use esz_os.Ahci.Reading.{IsRead, ahci_read_dma_ext-IsRead}

await_task_finish_iff_example :
    ((await_task_finish (λ t. ltb t 12) 5).1 ≤ 5 + 3000)
    × (((await_task_finish (λ t. ltb t 12) 5).0 ≡ true) ↔ ComesInTime (λ t. not (ltb t 12)) 5)
await_task_finish_iff_example = await_task_finish_iff (λ t. ltb t 12) 5

abbrev idle_port : PortCommand
idle_port = record { fre = false; st = false }

-- Every engine follows its bit at once.
abbrev quick : Monitor
quick cmd time = record { fr = cmd.fre; cr = cmd.st; bsy = false; drdy = true }

set_sata_port_status-IsSwitched_example :
    ((set_sata_port_status quick true idle_port 7).1.1 ≤ 7 + 9000)
    × (((set_sata_port_status quick true idle_port 7).0 ≡ true) ↔ IsStarted quick idle_port 7)
    × ((set_sata_port_status quick false idle_port 7).1.1 ≤ 7 + 6000)
    × (((set_sata_port_status quick false idle_port 7).0 ≡ true) ↔ IsStopped quick idle_port 7)
set_sata_port_status-IsSwitched_example = set_sata_port_status-IsSwitched quick idle_port 7

-- A disk whose bytes are their own places, below 256.
abbrev small_disk : Buffer
small_disk i = i

abbrev fill_region : CommandHeader → CommandTable → Buffer → Buffer
fill_region h t m a =
    let base = t.dba + 2 ^ 32 * t.dbau in
    if not (h.is_write) && (leb base a && ltb a (base + (t.dbc + 1)))
    then small_disk (lba_of t * 512 + (a - base))
    else m a

abbrev small_controller : Controller
small_controller = record {
  transfer = fill_region;
  unfinished = λ h t m. m;
  busy = λ time. ltb time 3;
}

small-IsDisk : IsDisk small_disk small_controller
small-IsDisk = record {
  reads = λ h t m i not_write words regions fis bit code mode fits.
      let base = t.dba + 2 ^ 32 * t.dbau in
      elim (Bool-cases (ltb i (t.dbc + 1))) [
        | inl inside ↦
            let test : (not (h.is_write)
                  && (leb base (base + i) && ltb (base + i) (base + (t.dbc + 1))))
                ≡ true =
              ground (arith, not_write, inside) in
            let place : lba_of t * 512 + (base + i - base) ≡ lba_of t * 512 + i = omega arith in
            ap (λ b. if b then small_disk (lba_of t * 512 + (base + i - base)) else m (base + i))
              test
            ∙ ap small_disk place
            ∙ sym (ap (λ b. if b then small_disk (lba_of t * 512 + i) else m (base + i)) inside)
        | inr outside ↦
            let test : (not (h.is_write)
                  && (leb base (base + i) && ltb (base + i) (base + (t.dbc + 1))))
                ≡ false =
              ground (arith, not_write, outside) in
            ap (λ b. if b then small_disk (lba_of t * 512 + (base + i - base)) else m (base + i))
              test
            ∙ sym (ap (λ b. if b then small_disk (lba_of t * 512 + i) else m (base + i)) outside)
      ];
}

-- Sixteen pages, of which the first is in use.
abbrev small_ahci : Ahci
small_ahci = record {
  pmm = record {
    pmm_bitmap = record { bytes = λ i. if leb i 0 then 1 else 0; count = 16 };
    memory_region_count = 1;
    total_usable_bytes = 65536;
    highest_address = 65536;
  };
  memory = λ i. 0;
  headers = λ a. clear_header;
  tables = λ a. clear_table;
}

ahci_read_dma_ext-IsRead_example :
    IsRead small_disk 3 2
      (λ i. 7)
      small_ahci
      513
      (((ahci_read_dma_ext small_controller 0x9000 3 2 (λ i. 7) small_ahci).0) 513)
ahci_read_dma_ext-IsRead_example =
    ahci_read_dma_ext-IsRead small_disk small_controller 0x9000 3 2 (λ i. 7) small_ahci 513
      small-IsDisk (3, omega arith, refl) (omega arith) (omega arith) (omega arith) (omega arith)
      (λ i. ground arith)
