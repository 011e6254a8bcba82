-- ===== src/Memory.antt =====
-- The block operations of kernel/memory/memory.cpp and the C library entry points of
-- kernel/types/libc/libc.cpp. Addresses index one memory of bytes, `uint64_t` accesses are
-- little-endian.
pub mod Words
pub mod Fill
pub mod Copy
mod Tests
use esz_os.Base.{ℕ, zero, suc, ◌+◌, ◌-◌, ◌*◌, ◌/◌, ◌%◌, ◌^◌, ◌==◌, if◌then◌else◌, Buffer, store, u8}

-- `*(uint64_t*) a`
unfoldable pub load64 : Buffer → ℕ → ℕ
load64 m a =
    m a
    + m (a + 1) * 2 ^ 8
    + m (a + 2) * 2 ^ 16
    + m (a + 3) * 2 ^ 24
    + m (a + 4) * 2 ^ 32
    + m (a + 5) * 2 ^ 40
    + m (a + 6) * 2 ^ 48
    + m (a + 7) * 2 ^ 56

-- The first `k` bytes of `v`, the lowest first, from `a` on.
unfoldable pub store_bytes : ℕ → Buffer → ℕ → ℕ → Buffer
store_bytes zero m a v = m
store_bytes (suc k) m a v = store_bytes k (store m a (v % 2 ^ 8)) (a + 1) (v / 2 ^ 8)

-- `*(uint64_t*) a = v`
unfoldable pub store64 : Buffer → ℕ → ℕ → Buffer
store64 m a v = store_bytes 8 m a v

-- `for (i = …; …; i++) dest64[i] = value64` with `left` words to go.
unfoldable pub fill_words : ℕ → Buffer → ℕ → ℕ → Buffer
fill_words zero m a value64 = m
fill_words (suc left) m a value64 = fill_words left (store64 m a value64) (a + 8) value64

unfoldable pub fill_bytes : ℕ → Buffer → ℕ → ℕ → Buffer
fill_bytes zero m a value = m
fill_bytes (suc left) m a value = fill_bytes left (store m a value) (a + 1) value

-- The product is a `uint64_t`, and fits: `value` is a byte.
unfoldable pub memory_fill : Buffer → ℕ → ℕ → ℕ → Buffer
memory_fill m target value n =
    let count64 = n / 8 in
    fill_bytes (n % 8) (fill_words count64 m target (value * 0x0101010101010101))
      (target + 8 * count64) value

unfoldable pub memory_clear : Buffer → ℕ → ℕ → Buffer
memory_clear m target n = memory_fill m target 0 n

unfoldable pub copy_words : ℕ → Buffer → ℕ → ℕ → Buffer
copy_words zero m to from = m
copy_words (suc left) m to from = copy_words left (store64 m to (load64 m from)) (to + 8) (from + 8)

unfoldable pub copy_bytes : ℕ → Buffer → ℕ → ℕ → Buffer
copy_bytes zero m to from = m
copy_bytes (suc left) m to from = copy_bytes left (store m to (m from)) (to + 1) (from + 1)

unfoldable pub memory_copy : Buffer → ℕ → ℕ → ℕ → Buffer
memory_copy m to from n =
    let count64 = n / 8 in
    copy_bytes (n % 8) (copy_words count64 m to from) (to + 8 * count64) (from + 8 * count64)

-- `int value` is cast to `uint8_t`; each function returns its first argument as well.
unfoldable pub memset : Buffer → ℕ → ℕ → ℕ → Buffer
memset m dest value n = memory_fill m dest (u8 value) n

unfoldable pub memcpy : Buffer → ℕ → ℕ → ℕ → Buffer
memcpy m dest src n = memory_copy m dest src n

unfoldable pub memmove : Buffer → ℕ → ℕ → ℕ → Buffer
memmove m dest src n = memory_copy m dest src n
