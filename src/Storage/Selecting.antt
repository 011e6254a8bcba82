-- ===== src/Storage/Selecting.antt =====
-- Which partition `search_suitable_storage_partition` of kernel/storage/storage.cpp selects.
use esz_os.Base.{ℕ, ◌+◌, ◌<◌, ◌≤◌, ◌≡◌, true, false, Option, none, some}
use esz_os.Storage.{StorageDevice, has_fat32}

-- The selected partition is the first with a FAT32 filesystem, in the order of the devices and then
-- of their partitions; or no device from `i` on, of `left` devices, has one.
unfoldable pub IsSelected : (ℕ → StorageDevice) → ℕ → ℕ → Option (ℕ × ℕ) → Type 0
IsSelected devices left i none =
    (k j : ℕ)
    → i ≤ k
    → k < i + left
    → j < (devices k).partition_count
    → has_fat32 (devices k) j ≡ false
IsSelected devices left i (some (k, j)) =
    (i ≤ k)
    × (k < i + left)
    × (j < (devices k).partition_count)
    × (has_fat32 (devices k) j ≡ true)
    × ((m : ℕ) → m < j → has_fat32 (devices k) m ≡ false)
    × ((l m : ℕ)
        → i ≤ l
        → l < k
        → m < (devices l).partition_count
        → has_fat32 (devices l) m ≡ false)
