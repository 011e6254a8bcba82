-- ===== src/Number/Parse.antt =====
-- What `to_int` of kernel/types/integer/integer.cpp reads.
use esz_os.Base.{
  ℕ, suc, ◌+◌, ◌-◌, ◌*◌, ◌^◌, ◌≡◌, ◌≢◌, refl, ap, List, [], ◌∷◌, arith, true, false, ◌==◌, Buffer,
  u64, length,
}
use esz_os.Str.{str_length}
use esz_os.Str.Text.{Part, Holds}
use esz_os.Str.Length.{str_length-Holds}
use esz_os.Number.{digit_value, parse_from, to_int}

-- The value of a text after `result`, one digit at a time, modulo 2 ^ 64.
unfoldable pub value_after : ℕ → List ℕ → ℕ → ℕ
value_after base [] result = result
value_after base (c ∷ s) result = value_after base s (u64 (result * base + digit_value c))

pub parse_from_lem :
    (i : ℕ) (text : Buffer) (base result : ℕ) (s : List ℕ)
    → Part text i s
    → parse_from (length s) i text base result ≡ value_after base s result
unfolding parse_from value_after
parse_from_lem i text base result [] part = refl
parse_from_lem i text base result (c ∷ s) (e, ne, rest) =
    rw (e, parse_from)
      (parse_from_lem (i + 1) text base (u64 (result * base + digit_value c)) s rest)

-- A text with no sign in front is read as its value.
pub to_int-Holds :
    (text : Buffer) (base c : ℕ) (s : List ℕ)
    → Holds text (c ∷ s)
    → c ≢ b'-'
    → to_int text base ≡ value_after base (c ∷ s) 0
unfolding to_int
to_int-Holds text base c s h unsigned =
    let (e, ne, rest) = h.chars in
    let n : (text 0 == b'-') ≡ false = ground (arith, e) in
    let z : (text 0 == 0) ≡ false = ground (arith, e) in
    let len : str_length text - 0 ≡ suc (length s) =
      omega (arith, str_length-Holds text (c ∷ s) h) in
    rw (n, z, len) (parse_from_lem 0 text base 0 (c ∷ s) h.chars)

-- A text with a sign in front is read as the negation of the value behind the sign.
pub to_int_negative :
    (text : Buffer) (base : ℕ) (s : List ℕ)
    → Holds text (b'-' ∷ s)
    → to_int text base ≡ u64 (2 ^ 64 - value_after base s 0)
unfolding to_int
to_int_negative text base s h =
    let (e, ne, rest) = h.chars in
    let n : (text 0 == b'-') ≡ true = ground (arith, e) in
    let z : (text 0 == 0) ≡ false = ground (arith, e) in
    let len : str_length text - 1 ≡ length s = omega (arith, str_length-Holds text (b'-' ∷ s) h) in
    rw (n, z, len) (ap (λ v. u64 (2 ^ 64 - v)) (parse_from_lem 1 text base 0 s rest))
