-- ===== src/Storage/Tests.antt =====
-- An example for the choice of the partition.
use esz_os.Base.{ℕ, true, false, ◌==◌, if◌then◌else◌, none}
use esz_os.Mbr.{PartitionInfo, ext, fat32}
use esz_os.Storage.{StorageDevice}

-- Four partitions, of which the third is FAT32.
abbrev a_partition : ℕ → PartitionInfo
a_partition j = record {
  start_lba = 2048;
  sector_count = 4096;
  type_of = if j == 2 then fat32 else ext;
  bootable = false;
}

abbrev a_device : StorageDevice
a_device = record {
  port = 0x9000;
  port_index = 0;
  signature = 0x101;
  is_ready = true;
  identified = false;
  identification_information = none;
  partitions = a_partition;
  partition_count = 4;
}
