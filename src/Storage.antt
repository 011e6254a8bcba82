-- ===== src/Storage.antt =====
-- Storage devices and their partitions: kernel/storage/storage.cpp and storage.h, over the disk
-- driver and the partition table. `stack` and `scratch` stand in local arrays.
pub mod Selecting
mod Tests
use esz_os.Base.{
  ℕ, zero, suc, ◌+◌, Bool, true, false, not, ◌==◌, ltb, if◌then◌else◌, Buffer, u8, Option, none,
  some,
}
use esz_os.Mbr.{FilesystemType, fat32, Partitions, parse_mbr}
use esz_os.Ahci.{Controller, Ahci, ahci_read_dma_ext, ahci_identify_device}
use esz_os.Fat32.{Fat32Context, init_fat32}
use esz_os.Fat32.Directory.{first_index}

-- The fields that the code sets. The port is named by the address of its command list.
pub record StorageDevice : Type 0 where
  pub port : ℕ
  pub port_index : ℕ
  pub signature : ℕ
  pub is_ready : Bool
  pub identified : Bool
  pub identification_information : Option Buffer
  pub partitions : Partitions
  pub partition_count : ℕ

-- The four partitions of the table, copied one by one, and counted.
unfoldable pub fill_partition_infos :
    Controller → Buffer → Partitions → StorageDevice → Ahci → Bool × (StorageDevice × Ahci)
fill_partition_infos controller stack scratch d s =
    let (buffer, s') = ahci_read_dma_ext controller (d.port) 0 1 stack s in
    let (partitions, found) = parse_mbr buffer scratch in
    if not found then (false, (d, s')) else (
      true,
      (
        record d {
          partitions = λ i. if ltb i 4 then partitions i else d.partitions i;
          partition_count = u8 (d.partition_count + 4);
        },
        s',
      ),
    )

-- What the loop of `setup_storage_devices` does for one ready port.
unfoldable pub setup_device :
    Controller
    → Buffer
    → Buffer
    → Partitions
    → ℕ
    → ℕ
    → ℕ
    → StorageDevice
    → Ahci
    → StorageDevice × Ahci
unfolding fill_partition_infos
setup_device controller fresh stack scratch port port_index signature d s =
    let d1 = record d {
      port = port;
      port_index = port_index;
      signature = signature;
      is_ready = false;
      identified = false;
    } in
    let (_, (d2, s2)) = fill_partition_infos controller stack scratch d1 s in
    let (information, s3) = ahci_identify_device controller port fresh s2 in
    (
      elim information [
        | none ↦ record d2 { is_ready = true }
        | some answer ↦ record d2 {
          is_ready = true;
          identified = true;
          identification_information = some answer;
        }
      ],
      s3,
    )

unfoldable pub is_fat32 : FilesystemType → Bool
is_fat32 fat32 = true
is_fat32 _ = false

abbrev pub has_fat32 : StorageDevice → ℕ → Bool
has_fat32 d j = is_fat32 ((d.partitions j).type_of)

-- The loops over the devices and, in each, over its partitions.
unfoldable pub search_from : ℕ → ℕ → (ℕ → StorageDevice) → Option (ℕ × ℕ)
unfolding first_index is_fat32
search_from zero i devices = none
search_from (suc left) i devices =
    let rest = search_from left (i + 1) devices in
    elim (first_index ((devices i).partition_count) 0 (has_fat32 (devices i))) [
      | none ↦ rest
      | some j ↦ some (i, j)
    ]

-- The device and the partition that are selected.
unfoldable pub search_suitable_storage_partition : ℕ → (ℕ → StorageDevice) → Option (ℕ × ℕ)
unfolding search_from
search_suitable_storage_partition amount devices = search_from amount 0 devices

-- After the devices are set up: the selected partition and its filesystem; `none` is a failure.
unfoldable pub init_storage :
    (ℕ → Buffer) → ℕ → (ℕ → StorageDevice) → Option ((ℕ × ℕ) × Fat32Context)
unfolding search_suitable_storage_partition
init_storage disks amount devices =
    if amount == 0 then none else elim (search_suitable_storage_partition amount devices) [
      | none ↦ none
      | some (i, j) ↦ some ((i, j), init_fat32 (disks i) (((devices i).partitions j).start_lba))
    ]
