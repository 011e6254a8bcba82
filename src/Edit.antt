-- ===== src/Edit.antt =====
-- The operations of kernel/types/string/string.cpp that give a new text, and `utf16_text_to_ascii`
-- of kernel/types/utf16/utf16.cpp. `fresh` is what stands in the memory that malloc returns.
pub mod Case
pub mod Trim
pub mod StringClass
pub mod Split
pub mod Joining
mod Tests
use esz_os.Base.{
  ℕ, zero, suc, ◌+◌, ◌-◌, ◌*◌, ◌<◌, Bool, true, false, ◌&&◌, ◌||◌, not, ◌==◌, ltb, leb,
  if◌then◌else◌, Buffer, store, List, [], ◌∷◌,
}
use esz_os.Char.{is_whitespace, to_upper, to_lower}
use esz_os.Str.{str_length, str_copy, str_add, malloc_str, copy_chars}

-- The outer loop of `str_repeat` at round `i`.
unfoldable pub repeat_rows : ℕ → ℕ → ℕ → Buffer → Buffer → Buffer
repeat_rows zero i text_len dest text = dest
repeat_rows (suc left) i text_len dest text =
    repeat_rows left (i + 1) text_len (copy_chars text_len 0 (i * text_len) 0 dest text) text

unfoldable pub str_repeat : Buffer → Buffer → ℕ → Buffer
str_repeat fresh text amount =
    let text_len = str_length text in
    let rows = repeat_rows amount 0 text_len (malloc_str fresh (text_len * amount + 1)) text in
    store rows (text_len * amount) 0

unfoldable pub str_combine_char : Buffer → Buffer → ℕ → Buffer
str_combine_char fresh a b =
    let len_a = str_length a in
    store (store (copy_chars len_a 0 0 0 (malloc_str fresh (len_a + 2)) a) len_a b) (len_a + 1) 0

unfoldable pub str_cut_end : Buffer → ℕ → Buffer
str_cut_end text n =
    let text_length = str_length text in
    if leb text_length n then store text 0 0 else store text (text_length - n) 0

unfoldable pub str_cut_end_malloc : Buffer → Buffer → ℕ → Buffer
str_cut_end_malloc fresh text n =
    let text_length = str_length text in
    let copied = str_copy (malloc_str fresh (text_length + 1)) text in
    if leb text_length n then store copied 0 0 else store copied (text_length - n) 0

-- `returnString[i - n] = text[i]` from n on. For n above the length the source allocates
-- `text_len - n + 1` bytes modulo 2 ^ 64, and this is the model up to that length only.
unfoldable pub str_cut_start : Buffer → Buffer → ℕ → Buffer
str_cut_start fresh text n =
    let text_len = str_length text in
    copy_chars (text_len - n) 0 0 n (malloc_str fresh (text_len - n + 1)) text

-- `ret[i] = ' '` for `left` rounds.
unfoldable pub blanks : ℕ → ℕ → Buffer → Buffer
blanks zero i ret = ret
blanks (suc left) i ret = blanks left (i + 1) (store ret i b' ')

unfoldable pub str_move_right : Buffer → Buffer → ℕ → Buffer
str_move_right fresh text move_amount =
    str_add (blanks move_amount 0 (malloc_str fresh (str_length text + move_amount + 1))) text

-- The first loop of `str_trim`, all of `str_trim_start`: the characters from the first that is no
-- blank on, and their number.
unfoldable pub skip_blanks : ℕ → ℕ → Bool → ℕ → Buffer → Buffer → Buffer × ℕ
skip_blanks zero i spotted new_length dest text = (dest, new_length)
skip_blanks (suc left) i spotted new_length dest text =
    elim (is_whitespace (text i) && not spotted) [
      | true ↦ skip_blanks left (i + 1) spotted new_length dest text
      | false ↦ skip_blanks left (i + 1) true (new_length + 1) (store dest new_length (text i)) text
    ]

-- The loop `for (i = n - 1; i >= 0; i--)` that cuts the blanks at the end.
unfoldable pub cut_blanks : ℕ → Buffer → Buffer
cut_blanks zero dest = dest
cut_blanks (suc i) dest = elim (is_whitespace (dest i)) [
  | true ↦ cut_blanks i (store dest i 0)
  | false ↦ dest
]

unfoldable pub str_trim_start : Buffer → Buffer → Buffer
str_trim_start fresh text =
    let text_len = str_length text in
    let (dest, _) = skip_blanks text_len 0 false 0 (malloc_str fresh (text_len + 1)) text in dest

unfoldable pub str_trim_end : Buffer → Buffer → Buffer
str_trim_end fresh text =
    let text_len = str_length text in
    cut_blanks text_len (str_copy (malloc_str fresh (text_len + 1)) text)

unfoldable pub str_trim : Buffer → Buffer → Buffer
str_trim fresh text =
    let text_len = str_length text in
    let (dest, new_length) =
      skip_blanks text_len 0 false 0 (malloc_str fresh (text_len + 1)) text in
    cut_blanks new_length dest

-- `returnString[i] = f(text[i])` for `left` rounds.
unfoldable pub map_chars : (ℕ → ℕ) → ℕ → ℕ → Buffer → Buffer → Buffer
map_chars f zero i dest text = dest
map_chars f (suc left) i dest text = map_chars f left (i + 1) (store dest i (f (text i))) text

unfoldable pub str_to_upper : Buffer → Buffer → Buffer
str_to_upper fresh text =
    let text_len = str_length text in
    map_chars to_upper text_len 0 (malloc_str fresh (text_len + 1)) text

unfoldable pub str_to_lower : Buffer → Buffer → Buffer
str_to_lower fresh text =
    let text_len = str_length text in
    map_chars to_lower text_len 0 (malloc_str fresh (text_len + 1)) text

-- The first loop of `str_split`.
unfoldable pub count_parts : ℕ → ℕ → Buffer → ℕ → ℕ → ℕ
count_parts zero i text split_char qty = qty
count_parts (suc left) i text split_char qty =
    count_parts left (i + 1) text split_char (if text i == split_char then qty + 1 else qty)

-- The second loop: the parts in their order.
unfoldable pub split_from : ℕ → ℕ → ℕ → ℕ → Buffer → Buffer → ℕ → List Buffer
split_from zero i part_start text_len fresh text split_char = []
split_from (suc left) i part_start text_len fresh text split_char =
    elim (not (i == text_len) && not (text i == split_char)) [
      | true ↦ split_from left (i + 1) part_start text_len fresh text split_char
      | false ↦
          let part_len = i - part_start in
          let part = copy_chars part_len 0 0 part_start (malloc_str fresh (part_len + 1)) text in
          store part part_len 0 ∷ split_from left (i + 1) (i + 1) text_len fresh text split_char
    ]

unfoldable pub str_split : Buffer → Buffer → ℕ → List Buffer × ℕ
str_split fresh text split_char =
    let text_len = str_length text in
    (
      split_from (text_len + 1) 0 0 text_len fresh text split_char,
      count_parts text_len 0 text split_char 1,
    )

-- The loop of `utf16_text_to_ascii`, which ends at 0x0000 and at 0xFFFF.
unfoldable pub utf16_from : ℕ → ℕ → ℕ → Buffer → Buffer → Buffer × ℕ
utf16_from zero i written dest text = (dest, written)
utf16_from (suc left) i written dest text =
    let low = text (i * 2) in
    let high = text (i * 2 + 1) in
    elim ((low == 0 && high == 0) || (low == 0xFF && high == 0xFF)) [
      | true ↦ (dest, written)
      | false ↦ utf16_from left (i + 1) (written + 1) (store dest written low) text
    ]

unfoldable pub utf16_text_to_ascii : Buffer → Buffer → ℕ → Buffer
utf16_text_to_ascii fresh text char_count =
    let (dest, written) = utf16_from char_count 0 0 (malloc_str fresh (char_count + 1)) text in
    store dest written 0
