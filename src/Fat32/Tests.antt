-- ===== src/Fat32/Tests.antt =====
-- Examples for reading a file.
use esz_os.Base.{inr, ◌≡◌, ◌-◌, ◌==◌, refl, arith, ◌&&◌, ltb, leb, if◌then◌else◌, Buffer, [], ◌∷◌}
use esz_os.Fat32.{Fat32Context, fat32_read}
use esz_os.Fat32.Chain.{IsVolume, Links, IsFile, size_of, fat32_read-Links}

-- Clusters of one sector, the table in sector 1 and the data from sector 2 on. Cluster 3 is the
-- last of its chain, and is full of the letter a.
abbrev small_context : Fat32Context
small_context = record {
  fat_start_lba = 1;
  data_region_start_lba = 2;
  root_cluster = 2;
  sectors_per_cluster = 1;
  bytes_per_sector = 512;
  root_dir_lba = 2;
  cluster_size_in_bytes = 512;
}

abbrev small_disk : Buffer
small_disk i = if leb 524 i && ltb i 528 then 0xFF else 97

abbrev garbage : Buffer
garbage i = 7

last_cluster : Links small_disk small_context 3 (3 ∷ [])
last_cluster = (refl, omega arith, omega arith, omega arith, inr (omega arith))

small-IsVolume : IsVolume small_context
small-IsVolume = record { sectors = refl; clusters = refl; start = omega arith }

one_cluster : size_of small_disk small_context (3 ∷ []) ≡ 512
unfolding size_of
one_cluster = refl

fat32_read-Links_example :
    IsFile small_disk small_context garbage
      (3 ∷ [])
      10
      (fat32_read small_disk small_context garbage 3 10)
fat32_read-Links_example =
    fat32_read-Links small_disk small_context garbage 3 10 [] small-IsVolume last_cluster
      (omega arith) (omega (arith, one_cluster)) (omega (arith, one_cluster))

-- A directory with one record, of the file "A" with 5 bytes in cluster 3.
abbrev one_file : Buffer
one_file i =
    if i == 0
    then 65
    else if leb 1 i && ltb i 11
    then 32
    else if i == 26
    then 3
    else if i == 28
    then 5
    else 0

-- "/A"
abbrev path_of_a : Buffer
path_of_a i = if i == 0 then 47 else if i == 1 then 65 else 0

-- The directory in the first data sector.
abbrev disk_with_file : Buffer
disk_with_file i = if leb 1024 i && ltb i 1536 then one_file (i - 1024) else 0
