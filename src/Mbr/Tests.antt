-- ===== src/Mbr/Tests.antt =====
-- Examples for the partition table.
use esz_os.Base.{◌≡◌, ◌↔◌, ◌+◌, ◌*◌, refl, true, false, ◌==◌, if◌then◌else◌, Buffer, Stores32}
use esz_os.Mbr.{Partitions, empty, parse_mbr}
use esz_os.Mbr.Parse.{IsParsed, parse_mbr_lem}

-- A disk whose first partition has 4096 sectors from sector 2048 on.
abbrev first_sector : Buffer
first_sector i =
    if i == 510
    then 0x55
    else if i == 511
    then 0xAA
    else if i == 0x1C2
    then 0x0C
    else if i == 0x1C7
    then 8
    else if i == 0x1CB
    then 0x10
    else 0

abbrev nothing : Partitions
nothing i = record { start_lba = 0; sector_count = 0; type_of = empty; bootable = false }

parse_mbr_lem_example :
    (((parse_mbr first_sector nothing).1 ≡ true)
      ↔ ((first_sector 510 ≡ 0x55) × (first_sector 511 ≡ 0xAA)))
    × IsParsed first_sector nothing 0
        ((parse_mbr first_sector nothing).1)
        ((parse_mbr first_sector nothing).0 0)
parse_mbr_lem_example = parse_mbr_lem first_sector nothing 0

start_2048 : Stores32 first_sector (0x1BE + 16 * 0 + 8) 2048
start_2048 = record { byte0 = refl; byte1 = refl; byte2 = refl; byte3 = refl }

sectors_4096 : Stores32 first_sector (0x1BE + 16 * 0 + 12) 4096
sectors_4096 = record { byte0 = refl; byte1 = refl; byte2 = refl; byte3 = refl }
