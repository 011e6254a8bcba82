-- ===== src/Fat32.antt =====
-- Reading a FAT32 volume: kernel/storage/filesystem/fat32/fat32.cpp and fat32.h. `disk` holds the
-- bytes of the device, which the AHCI driver reads by sectors of 512 bytes.
pub mod Chain
pub mod Directory
pub mod Listing
pub mod Resolving
mod Tests
use esz_os.Base.{
  ℕ, zero, suc, ◌+◌, ◌-◌, ◌*◌, ◌/◌, ◌%◌, ◌^◌, Bool, true, false, ◌&&◌, ◌||◌, ◌==◌, ltb, leb,
  if◌then◌else◌, Buffer, store, u8, u32, u64, read_u16, read_u32, Option, none, some,
}
use esz_os.Config.{sector_size_bytes}
use esz_os.Math.{divide_round_up}

abbrev pub eoc_start : ℕ
eoc_start = 0x0FFFFFF8

pub record Fat32Context : Type 0 where
  pub fat_start_lba : ℕ
  pub data_region_start_lba : ℕ
  pub root_cluster : ℕ
  pub sectors_per_cluster : ℕ
  pub bytes_per_sector : ℕ
  pub root_dir_lba : ℕ
  pub cluster_size_in_bytes : ℕ

-- What a read from sector `lba` on puts into its buffer, as far as the sectors that it reads go.
unfoldable pub read_sectors : Buffer → ℕ → Buffer
read_sectors disk lba i = disk (lba * sector_size_bytes + i)

-- The fields of the packed boot sector that the code reads.
unfoldable pub bpb_bytes_per_sector : Buffer → ℕ
bpb_bytes_per_sector b = read_u16 b 11

unfoldable pub bpb_sectors_per_cluster : Buffer → ℕ
bpb_sectors_per_cluster b = b 13

unfoldable pub bpb_reserved_sectors : Buffer → ℕ
bpb_reserved_sectors b = read_u16 b 14

unfoldable pub bpb_amount_of_fat_copies : Buffer → ℕ
bpb_amount_of_fat_copies b = b 16

unfoldable pub bpb_sectors_per_fat : Buffer → ℕ
bpb_sectors_per_fat b = read_u32 b 36

unfoldable pub bpb_root_begin : Buffer → ℕ
bpb_root_begin b = read_u32 b 44

-- `cluster - 2` on uint32_t.
unfoldable pub cluster_index : ℕ → ℕ
cluster_index cluster = u32 (cluster + 2 ^ 32 - 2)

unfoldable pub init_fat32 : Buffer → ℕ → Fat32Context
unfolding bpb_bytes_per_sector bpb_sectors_per_cluster bpb_reserved_sectors bpb_amount_of_fat_copies
    bpb_sectors_per_fat bpb_root_begin cluster_index
init_fat32 disk start_lba =
    let b = read_sectors disk start_lba in
    let fat_start = u32 (start_lba + bpb_reserved_sectors b) in
    let data_start = u64 (fat_start + u32 (bpb_amount_of_fat_copies b * bpb_sectors_per_fat b)) in
    record {
      fat_start_lba = fat_start;
      data_region_start_lba = data_start;
      root_cluster = bpb_root_begin b;
      sectors_per_cluster = bpb_sectors_per_cluster b;
      bytes_per_sector = bpb_bytes_per_sector b;
      root_dir_lba =
          u64 (data_start + u32 (cluster_index (bpb_root_begin b) * bpb_sectors_per_cluster b));
      cluster_size_in_bytes = bpb_sectors_per_cluster b * bpb_bytes_per_sector b;
    }

unfoldable pub get_fat_sector_to_read : Fat32Context → ℕ → ℕ
get_fat_sector_to_read context cluster =
    u32 (cluster * 4) / context.bytes_per_sector + context.fat_start_lba

unfoldable pub cluster_to_lba : Fat32Context → ℕ → ℕ
unfolding cluster_index
cluster_to_lba context cluster =
    u64 (context.data_region_start_lba + u32 (cluster_index cluster * context.sectors_per_cluster))

unfoldable pub get_next_cluster : Buffer → Fat32Context → ℕ → ℕ
unfolding get_fat_sector_to_read
get_next_cluster disk context cluster =
    let offset_in_sector = u32 (cluster * 4) % context.bytes_per_sector in
    read_u32 (read_sectors disk (get_fat_sector_to_read context cluster)) (offset_in_sector / 4 * 4)
    % 2 ^ 28

unfoldable pub is_data_cluster : ℕ → Bool
is_data_cluster cluster = leb 2 cluster && ltb cluster eoc_start

-- `memory_copy(out + offset, from, size)` between buffers that do not overlap.
unfoldable pub copy_into : Buffer → ℕ → Buffer → ℕ → Buffer
copy_into out offset from size i =
    if leb offset i && ltb i (offset + size) then from (i - offset) else out i

-- The loop of `read_cluster_chain`; `none` stands for a chain that does not end within the fuel. A
-- read of the disk is one that succeeds. The source has no check of the room in `out`: what is
-- behind it is the memory that follows.
unfoldable pub read_chain : Buffer → Fat32Context → ℕ → ℕ → ℕ → Buffer → Option Buffer
unfolding is_data_cluster cluster_to_lba get_next_cluster copy_into
read_chain disk context zero curr_cluster offset out = none
read_chain disk context (suc fuel) curr_cluster offset out = elim (is_data_cluster curr_cluster) [
  | true ↦
      read_chain disk context fuel (get_next_cluster disk context curr_cluster)
        (offset + context.cluster_size_in_bytes)
        (copy_into out offset (read_sectors disk (cluster_to_lba context curr_cluster))
          (context.cluster_size_in_bytes))
  | false ↦ some out
]

-- A buffer as a pointer that is not null.
unfoldable pub as_pointer : Option Buffer → Option (Option Buffer)
as_pointer none = none
as_pointer (some content) = some (some content)

-- `fileData[entry.Size] = 0`; the source does the same with the null pointer.
unfoldable pub terminate : ℕ → Option (Option Buffer) → Option (Option Buffer)
terminate size none = none
terminate size (some none) = some none
terminate size (some (some content)) = some (some (store content size 0))

-- A chain without a circle has fewer than 2 ^ 28 clusters. The result is `some none` for the null
-- pointer, `fresh` what stands in the memory that malloc returns.
unfoldable pub read_cluster_chain : Buffer → Fat32Context → Buffer → ℕ → Option (Option Buffer)
unfolding read_chain as_pointer
read_cluster_chain disk context fresh start_cluster =
    if is_data_cluster start_cluster
    then as_pointer (read_chain disk context (2 ^ 28) start_cluster 0 fresh)
    else some none

unfoldable pub fat32_read : Buffer → Fat32Context → Buffer → ℕ → ℕ → Option (Option Buffer)
unfolding read_cluster_chain terminate
fat32_read disk context fresh first_cluster size =
    terminate size (read_cluster_chain disk context fresh first_cluster)
