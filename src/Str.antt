-- ===== src/Str.antt =====
-- C strings: kernel/types/string/string.cpp. A pointer to characters is the buffer of the bytes
-- from it on; buffers that a function is given do not overlap, and those that it allocates are
-- fresh. `fresh` is what stands in the memory that malloc returns, which is never null here.
pub mod Text
pub mod Length
pub mod Copy
pub mod Starts
pub mod Search
mod Tests
use esz_os.Base.{
  ℕ, zero, suc, ◌+◌, ◌-◌, ◌*◌, ◌^◌, Bool, true, false, ◌&&◌, ◌==◌, ltb, if◌then◌else◌, Buffer,
  store, u64,
}
use esz_os.Memory.{memory_clear}

-- `while (str[i] != 0) i++`. An address has 64 bits, so 2 ^ 64 rounds go round the whole memory.
unfoldable pub scan_length : ℕ → Buffer → ℕ → ℕ
scan_length zero str i = i
scan_length (suc fuel) str i = elim (str i == 0) [ true ↦ i | false ↦ scan_length fuel str (i + 1) ]

unfoldable pub str_length : Buffer → ℕ
str_length str = scan_length (2 ^ 64) str 0

unfoldable pub malloc_str : Buffer → ℕ → Buffer
malloc_str fresh size = memory_clear fresh 0 size

-- The text "0".
unfoldable pub malloc_empty_str : Buffer → Buffer
unfolding malloc_str
malloc_empty_str fresh = store (store (malloc_str fresh 2) 0 b'0') 1 0

-- `if (a[from + i] != b[i]) return false` for `left` rounds.
unfoldable pub same_chars : ℕ → ℕ → ℕ → Buffer → Buffer → Bool
same_chars zero from i a b = true
same_chars (suc left) from i a b = elim (a (from + i) == b i) [
  | true ↦ same_chars left from (i + 1) a b
  | false ↦ false
]

unfoldable pub str_equal : Buffer → Buffer → Bool
str_equal a b = if str_length a == str_length b then same_chars (str_length a) 0 0 a b else false

-- The overloads on one character; `str_equal(char, const char*)` is the same test.
unfoldable pub str_equal_char : Buffer → ℕ → Bool
str_equal_char a b = str_length a == 1 && a 0 == b

-- `dest[to + j] = src[from + j]` for `left` rounds.
unfoldable pub copy_chars : ℕ → ℕ → ℕ → ℕ → Buffer → Buffer → Buffer
copy_chars zero j to from dest src = dest
copy_chars (suc left) j to from dest src =
    copy_chars left (j + 1) to from (store dest (to + j) (src (from + j))) src

unfoldable pub str_copy : Buffer → Buffer → Buffer
str_copy dest src =
    let src_len = str_length src in store (copy_chars src_len 0 0 0 dest src) src_len 0

unfoldable pub str_add : Buffer → Buffer → Buffer
str_add target value =
    let target_length = str_length target in
    let value_length = str_length value in
    store (copy_chars value_length 0 target_length 0 target value) (target_length + value_length) 0

unfoldable pub str_add_char : Buffer → ℕ → Buffer
str_add_char target char_value =
    let target_length = str_length target in
    store (store target target_length char_value) (target_length + 1) 0

unfoldable pub str_starts_with : Buffer → Buffer → Bool
str_starts_with text search_text =
    let search_len = str_length search_text in
    if ltb (str_length text) search_len then false else same_chars search_len 0 0 text search_text

unfoldable pub str_ends_with : Buffer → Buffer → Bool
str_ends_with text search_text =
    let text_len = str_length text in
    let search_len = str_length search_text in
    if ltb text_len search_len
    then false
    else same_chars search_len (text_len - search_len) 0 text search_text

-- The window of `len` characters at `i`, copied into `comparison` and terminated.
unfoldable pub window : ℕ → ℕ → Buffer → Buffer → Buffer
window len i text comparison = store (copy_chars len 0 0 i comparison text) len 0

-- The loops of `str_contains` and `str_count` at position `i`, with `left` rounds to go.
module _ (len : ℕ) (text search_text : Buffer) where
  unfoldable pub contains_from : ℕ → ℕ → Buffer → Bool
  contains_from zero i comparison = false
  contains_from (suc left) i comparison =
      let filled = window len i text comparison in
      elim (str_equal search_text filled) [
        | true ↦ true
        | false ↦ contains_from left (i + 1) filled
      ]

  unfoldable pub count_from : ℕ → ℕ → Buffer → ℕ → ℕ
  count_from zero i comparison hits = hits
  count_from (suc left) i comparison hits =
      let filled = window len i text comparison in
      count_from left (i + 1) filled (if str_equal search_text filled then hits + 1 else hits)

-- `stack` is what stands in the array `comparison` at first.
unfoldable pub str_contains : Buffer → Buffer → Buffer → Bool
str_contains stack text search_text =
    let search_len = str_length search_text in
    let text_len = str_length text in
    if ltb text_len search_len
    then false
    else contains_from search_len text search_text (text_len - search_len + 1) 0 stack

unfoldable pub str_count : Buffer → Buffer → Buffer → ℕ
str_count stack text search_text =
    let search_len = str_length search_text in
    let text_len = str_length text in
    if ltb text_len search_len
    then 0
    else count_from search_len text search_text (text_len - search_len + 1) 0 stack 0
