-- ===== src/Mbr.antt =====
-- The partition table: kernel/storage/partitioning/mbr/mbr.cpp and mbr.h, and the partition record
-- of kernel/storage/partitioning/partitioning.h.
pub mod Parse
mod Tests
use esz_os.Base.{
  ℕ, zero, suc, ◌+◌, ◌*◌, Bool, true, false, ◌||◌, not, ◌==◌, if◌then◌else◌, Buffer, read_u32,
}

pub data FilesystemType : Type 0 where
  unknown empty gpt_protective fat12 fat16 fat32 ntfs ext : FilesystemType

pub record PartitionInfo : Type 0 where
  pub start_lba : ℕ
  pub sector_count : ℕ
  pub type_of : FilesystemType
  pub bootable : Bool

abbrev pub mbr_partition_table_offset : ℕ
mbr_partition_table_offset = 0x1BE

-- The packed `Partition_Entry` of 16 bytes at an address.
unfoldable pub entry_boot_flag : Buffer → ℕ → ℕ
entry_boot_flag m a = m a

unfoldable pub entry_partition_type : Buffer → ℕ → ℕ
entry_partition_type m a = m (a + 4)

unfoldable pub entry_start_lba : Buffer → ℕ → ℕ
entry_start_lba m a = read_u32 m (a + 8)

unfoldable pub entry_sector_amount : Buffer → ℕ → ℕ
entry_sector_amount m a = read_u32 m (a + 12)

-- The switch on the partition type.
unfoldable pub partition_type : ℕ → FilesystemType
partition_type code =
    if code == 0x01
    then fat12
    else if code == 0x06 || code == 0x04
    then fat16
    else if code == 0x0B || code == 0x0C
    then fat32
    else if code == 0xEE
    then gpt_protective
    else if code == 0x83
    then ext
    else if code == 0x07
    then ntfs
    else if code == 0x00
    then empty
    else unknown

unfoldable pub parse_entry : Buffer → ℕ → PartitionInfo
unfolding entry_boot_flag entry_partition_type entry_start_lba entry_sector_amount partition_type
parse_entry m a = record {
  start_lba = entry_start_lba m a;
  sector_count = entry_sector_amount m a;
  type_of = partition_type (entry_partition_type m a);
  bootable = entry_boot_flag m a == 0x80;
}

abbrev pub Partitions : Type 0
Partitions = ℕ → PartitionInfo

unfoldable pub put : Partitions → ℕ → PartitionInfo → Partitions
put out i info j = if j == i then info else out j

unfoldable pub mark_empty : PartitionInfo → PartitionInfo
mark_empty info = record {
  start_lba = info.start_lba;
  sector_count = info.sector_count;
  type_of = empty;
  bootable = info.bootable;
}

-- The two loops over the table, at entry `i`.
unfoldable pub empty_from : ℕ → ℕ → Partitions → Partitions
empty_from zero i out = out
empty_from (suc left) i out = empty_from left (i + 1) (put out i (mark_empty (out i)))

unfoldable pub parse_from : ℕ → ℕ → Buffer → Partitions → Partitions
parse_from zero i sector_buffer out = out
parse_from (suc left) i sector_buffer out =
    parse_from left (i + 1) sector_buffer
      (put out i (parse_entry sector_buffer (mbr_partition_table_offset + 16 * i)))

unfoldable pub parse_mbr : Buffer → Partitions → Partitions × Bool
parse_mbr sector_buffer out =
    if not (sector_buffer 510 == 0x55) || not (sector_buffer 511 == 0xAA)
    then (empty_from 4 0 out, false)
    else (parse_from 4 0 sector_buffer out, true)
