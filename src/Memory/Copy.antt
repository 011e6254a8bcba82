-- ===== src/Memory/Copy.antt =====
-- `memory_copy` against its meaning byte by byte, and the overlaps where `memmove` fails.
use esz_os.Base.{
  ℕ, zero, suc, ◌+◌, ◌-◌, ◌*◌, ◌/◌, ◌%◌, ◌^◌, ◌≤◌, ◌≡◌, ◌≢◌, ◌⊎◌, arith, ltb, leb, ◌&&◌,
  if◌then◌else◌, Buffer, store, IsBytes, store-IsBytes,
}
use esz_os.Memory.{load64, store_bytes, store64, copy_bytes, copy_words, memory_copy, memmove}
use esz_os.Memory.Words.{store64-load64}

-- A forward copy is safe when the target lies before the source or behind its end.
abbrev pub IsForward : ℕ → ℕ → ℕ → Type 0
IsForward to from n = (to ≤ from) ⊎ (from + n ≤ to)

-- What `n` copied bytes mean at the address `i`.
abbrev pub moved : Buffer → ℕ → ℕ → ℕ → ℕ → ℕ
moved m to from n i = if leb to i && ltb i (to + n) then m (from + (i - to)) else m i

copy_bytes_lem :
    (n : ℕ) (m : Buffer) (to from i : ℕ)
    → IsForward to from n
    → copy_bytes n m to from i ≡ moved m to from n i
unfolding copy_bytes store
copy_bytes_lem zero m to from i safe = ground arith
copy_bytes_lem (suc n) m to from i safe =
    ground (arith, copy_bytes_lem n (store m to (m from)) (to + 1) (from + 1) i)

store_bytes-IsBytes : (k : ℕ) (m : Buffer) (a v : ℕ) → IsBytes m → IsBytes (store_bytes k m a v)
unfolding store_bytes
store_bytes-IsBytes zero m a v ok = ok
store_bytes-IsBytes (suc k) m a v ok =
    store_bytes-IsBytes k _ (a + 1) (v / 2 ^ 8) (store-IsBytes m a (v % 2 ^ 8) ok (omega arith))

store64-IsBytes : (m : Buffer) (a v : ℕ) → IsBytes m → IsBytes (store64 m a v)
unfolding store64
store64-IsBytes m a v ok = store_bytes-IsBytes 8 m a v ok

copy_words_lem :
    (n : ℕ) (m : Buffer) (to from i : ℕ)
    → IsBytes m
    → IsForward to from (8 * n)
    → copy_words n m to from i ≡ moved m to from (8 * n) i
unfolding copy_words
copy_words_lem zero m to from i ok safe = ground arith
copy_words_lem (suc n) m to from i ok safe =
    let m' = store64 m to (load64 m from) in
    ground (
      arith,
      copy_words_lem n m' (to + 8) (from + 8) i (store64-IsBytes m to (load64 m from) ok)
          (omega arith),
      store64-load64 m to from i ok,
      store64-load64 m to from (from + 8 + (i - (to + 8))) ok,
    )

-- `memory_copy` moves exactly `n` bytes, whatever the length, when the target lies at or before
-- the source or not inside it; no other byte changes.
pub memory_copy_lem :
    (m : Buffer) (to from n i : ℕ)
    → IsBytes m
    → IsForward to from n
    → memory_copy m to from n i ≡ (if leb to i && ltb i (to + n) then m (from + (i - to)) else m i)
unfolding memory_copy
memory_copy_lem m to from n i ok safe =
    let k = 8 * (n / 8) in
    let words = copy_words (n / 8) m to from in
    ground (
      arith,
      copy_bytes_lem (n % 8) words (to + k) (from + k) i (omega arith),
      copy_words_lem (n / 8) m to from i ok (omega arith),
      copy_words_lem (n / 8) m to from (from + k + (i - (to + k))) ok (omega arith),
    )

-- `memmove` must give the bytes that stood in the source. One byte further up it does not: where
-- two neighbouring bytes differ, moving both up by one loses the second.
pub memmove_overlap :
    (m : Buffer) (from : ℕ)
    → m from ≢ m (from + 1)
    → memmove m (from + 1) from 2 (from + 1 + 1) ≢ m (from + 1)
unfolding memmove memory_copy copy_words copy_bytes store
memmove_overlap m from differ = ground arith
