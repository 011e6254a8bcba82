-- ===== src/Number.antt =====
-- Numbers as text: `to_string` of kernel/types/string/string.cpp and `to_int` of
-- kernel/types/integer/integer.cpp. An `int64_t` is its 64-bit pattern, below 2 ^ 64. `fresh` and
-- `scratch` are what stands in the memory that malloc returns.
pub mod Print
pub mod Parse
pub mod RoundTrip
mod Tests
use esz_os.Base.{
  ℕ, zero, suc, ◌+◌, ◌-◌, ◌*◌, ◌^◌, ◌/◌, ◌%◌, Bool, true, false, ◌||◌, ◌==◌, ltb, leb,
  if◌then◌else◌, Buffer, store, u8, u64,
}
use esz_os.Char.{is_digit, is_alpha, to_lower}
use esz_os.Str.{str_length, malloc_str, malloc_empty_str, copy_chars}

unfoldable pub digit_value : ℕ → ℕ
unfolding is_digit is_alpha to_lower
digit_value c = if is_digit c then c - b'0' else if is_alpha c then to_lower c - b'a' + 10 else 0

-- `result = (result * base) + digit_value(text[i])` for `left` rounds, modulo 2 ^ 64.
unfoldable pub parse_from : ℕ → ℕ → Buffer → ℕ → ℕ → ℕ
parse_from zero i text base result = result
parse_from (suc left) i text base result =
    parse_from left (i + 1) text base (u64 (result * base + digit_value (text i)))

unfoldable pub to_int : Buffer → ℕ → ℕ
to_int text base =
    let text_len = str_length text in
    let is_negative = text 0 == b'-' in
    let number_start = if is_negative then 1 else 0 in
    let result = parse_from (text_len - number_start) number_start text base 0 in
    if text 0 == 0 then 0 else if is_negative then u64 (2 ^ 64 - result) else result

-- The first loop: the number of digits.
unfoldable pub count_digits : ℕ → ℕ → ℕ → ℕ → ℕ
count_digits zero calc_value base len = len
count_digits (suc fuel) calc_value base len = elim (calc_value == 0) [
  | true ↦ len
  | false ↦ count_digits fuel (calc_value / base) base (suc len)
]

unfoldable pub digit_char : ℕ → ℕ
digit_char new_value = u8 (if ltb new_value 10 then new_value + b'0' else b'a' + (new_value - 10))

-- The second loop: the digits, the last one first, and their number.
unfoldable pub compose_digits : ℕ → ℕ → ℕ → ℕ → Buffer → Buffer × ℕ
compose_digits zero calc_value base len composed = (composed, len)
compose_digits (suc fuel) calc_value base len composed = elim (calc_value == 0) [
  | true ↦ (composed, len)
  | false ↦
      compose_digits fuel (calc_value / base) base (suc len)
        (store composed len (digit_char (calc_value % base)))
]

-- The third loop: `returnString[counter] = composedString[i]` for i downwards.
unfoldable pub reverse_chars : ℕ → ℕ → Buffer → Buffer → Buffer
reverse_chars zero counter dest composed = dest
reverse_chars (suc i) counter dest composed =
    reverse_chars i (counter + 1) (store dest counter (composed i)) composed

-- A base of 2 or more divides a 64-bit number to 0 in 64 rounds at most.
unfoldable pub to_string : Buffer → Buffer → ℕ → ℕ → Buffer
to_string fresh scratch input_value base =
    let str_len = count_digits 64 input_value base 0 in
    let (composed, len) = compose_digits 64 input_value base 0 (malloc_str scratch (str_len + 1)) in
    let reversed = reverse_chars len 0 (malloc_str fresh (str_len + 1)) composed in
    if (input_value == 0 || base == 0) || base == 1
    then malloc_empty_str fresh
    else store reversed len 0

unfoldable pub str_combine : Buffer → Buffer → Buffer → Buffer
str_combine fresh a b =
    let len_a = str_length a in
    let len_b = str_length b in
    let first = copy_chars len_a 0 0 0 (malloc_str fresh (len_a + len_b + 1)) a in
    store (copy_chars len_b 0 len_a 0 first b) (len_a + len_b) 0

-- The literal "-".
unfoldable pub minus_text : Buffer
minus_text = store (store (λ i. 0) 0 b'-') 1 0

-- The overload on `int64_t`: the sign bit of the pattern decides.
unfoldable pub to_string_signed : Buffer → Buffer → Buffer → ℕ → ℕ → Buffer
to_string_signed fresh scratch joined input_value base =
    if ltb input_value (2 ^ 63)
    then to_string fresh scratch input_value base
    else str_combine joined minus_text (to_string fresh scratch (u64 (2 ^ 64 - input_value)) base)
