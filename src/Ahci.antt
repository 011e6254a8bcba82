-- ===== src/Ahci.antt =====
-- The disk driver: kernel/io/ahci/ahci.cpp and ahci.h. The controller is a parameter: what its
-- status registers show at each poll, and what it does with the memory when a command starts. The
-- command lists, the command tables and the data buffers are seen as three views of the pages that
-- the physical memory manager gives, each by the physical address.
mod Port
mod Commands
pub mod Await
pub mod Switching
pub mod Building
pub mod Reading
pub mod Ports
mod Tests
unfoldable pub use Port.*
unfoldable pub use Commands.*
use esz_os.Base.{
  ℕ, zero, suc, ◌+◌, ◌-◌, ◌*◌, ◌/◌, ◌%◌, ◌^◌, ◌<◌, Bool, true, false, ◌&&◌, ◌||◌, not, ◌==◌, ltb,
  leb, if◌then◌else◌, Buffer, store, u8, u32, u64, Option, none, some,
}
use esz_os.Config.{page_size, sector_size_bytes}
use esz_os.Math.{divide_round_up}
use esz_os.Str.{str_copy}
use esz_os.Edit.{str_trim_end}
use esz_os.Pmm.{Pmm, pmm_malloc_page, pmm_malloc_pages, pmm_malloc_failed}

-- The registers of a port that the driver writes.
pub record AhciPort : Type 0 where
  pub cmd : PortCommand
  pub clb : ℕ
  pub clbu : ℕ
  pub fb : ℕ
  pub fbu : ℕ

abbrev pub clear_header : CommandHeader
clear_header = record { ctba = 0; ctbau = 0; cfl = 0; is_write = false; prdtl = 0 }

unfoldable pub prepare_port : Monitor → AhciPort → ℕ → Ahci → Bool × (AhciPort × Ahci)
unfolding clear_memory put_header
prepare_port monitor port time s =
    let (stopped, (cmd1, time1)) = set_sata_port_status monitor false (port.cmd) time in
    let (list_address, p1) = pmm_malloc_page (s.pmm) in
    let (fb_address, p2) = pmm_malloc_page p1 in
    let (started, (cmd2, _)) = set_sata_port_status monitor true cmd1 time1 in
    if not stopped
    then (false, (record port { cmd = cmd1 }, s))
    else if list_address == pmm_malloc_failed || fb_address == pmm_malloc_failed
    then (false, (record port { cmd = cmd1 }, record s { pmm = p2 }))
    else (
      started,
      (
        record { cmd = cmd2; clb = u32 list_address; clbu = 0; fb = u32 fb_address; fbu = 0 },
        record s {
          pmm = p2;
          headers = put_header (s.headers) (u32 list_address) clear_header;
          memory = clear_memory (s.memory) (u32 fb_address) page_size;
        },
      ),
    )
