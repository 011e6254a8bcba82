-- ===== src/Memory/Tests.antt =====
-- Runs of kernel/memory/memory.cpp.
use esz_os.Base.{◌%◌, ◌≡◌, ◌≢◌, refl, arith, Buffer, store, IsBytes}
use esz_os.Memory.{copy_bytes, copy_words, store64, store_bytes, load64, memory_copy, memmove}
use esz_os.Memory.Copy.{memmove_overlap}

-- The byte at each address is the address modulo 256.
abbrev counting : Buffer
counting i = i % 256

counting-IsBytes : IsBytes counting
counting-IsBytes i = omega arith

copy_run : (memory_copy counting 200 100 11 210 ≡ 110) × (memory_copy counting 200 100 11 211 ≡ 211)
unfolding memory_copy copy_bytes copy_words store64 store_bytes load64 store
copy_run = (refl, refl)

memmove_overlap_example : memmove counting 11 10 2 12 ≢ counting 11
memmove_overlap_example = memmove_overlap counting 10 (omega arith)
