-- ===== src/Bitmap/Tests.antt =====
-- Runs of kernel/helper/bitmap/bitmap.cpp.
use esz_os.Base.{◌≡◌, refl, true, false, arith, ◌==◌, if◌then◌else◌, Buffer, IsBytes}
use esz_os.Bitmap.{Bitmap, bit_read, find_free_range, search_range}
use esz_os.Bitmap.Search.{Searched, find_free_range-Searched}

-- 0b00101101 in the first byte, nothing behind it.
abbrev bytes : Buffer
bytes i = if i == 0 then 0x2d else 0

abbrev bitmap : Bitmap
bitmap = record { bytes = bytes; count = 20 }

bytes-IsBytes : IsBytes bytes
bytes-IsBytes i = ground arith

search_runs :
    (find_free_range bitmap 1 ≡ (1, true))
    × (find_free_range bitmap 2 ≡ (6, true))
    × (find_free_range bitmap 15 ≡ (0, false))
unfolding find_free_range search_range bit_read
search_runs = (refl, refl, refl)

find_free_range-Searched_example : Searched bytes 20 2 (find_free_range bitmap 2)
find_free_range-Searched_example = find_free_range-Searched bitmap 2 (omega arith)
