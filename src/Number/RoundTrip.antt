-- ===== src/Number/RoundTrip.antt =====
-- `to_int` reads what `to_string` prints.
use esz_os.Base.{
  ℕ, zero, suc, ◌+◌, ◌-◌, ◌*◌, ◌^◌, ◌/◌, ◌%◌, ◌≤◌, ◌<◌, ◌≡◌, ◌≢◌, refl, ◌∙◌, ap, List, [], ◌∷◌,
  ◌++◌, arith, false, ◌==◌, ltb, Buffer, u64, length, length-append, subst, sym, Bool-cases, inl,
  inr, store, store_self, eq_or_ne,
}
use esz_os.Char.{is_digit, is_alpha, to_lower, is_upper_alpha}
use esz_os.Str.{malloc_str, copy_chars}
use esz_os.Str.Text.{Part, Holds, Part-ext, Part-append}
use esz_os.Str.Length.{str_length-Holds}
use esz_os.Str.Copy.{copy_chars-Part, copy_chars_before, store-Part}
use esz_os.Number.{
  digit_char, digit_value, to_int, to_string, str_combine, minus_text, to_string_signed,
}
use esz_os.Number.Print.{digit_text, digit_text-length, to_string-Holds, to_string_zero}
use esz_os.Number.Parse.{value_after, to_int-Holds, to_int_negative}

digit_value-digit_char : (d : ℕ) → d < 36 → digit_value (digit_char d) ≡ d
unfolding digit_value digit_char is_digit is_alpha to_lower is_upper_alpha
digit_value-digit_char d lt = ground arith

digit_char-ne-minus : (d : ℕ) → d < 36 → digit_char d ≢ b'-'
unfolding digit_char
digit_char-ne-minus d lt = ground arith

mod_lt : (v base : ℕ) → 2 ≤ base → base ≤ 36 → v % base < 36
mod_lt v base big small = grind arith

mul_div_mod : (v base : ℕ) → 2 ≤ base → v / base * base + v % base ≡ v
mul_div_mod v base big = grind arith

div_lt : (v base m : ℕ) → 2 ≤ base → v < 2 * m → v / base < m
div_lt v base m big lt = grind arith

value_after-digit_text :
    (fuel v base : ℕ) (acc : List ℕ)
    → 2 ≤ base
    → base ≤ 36
    → v < 2 ^ 64
    → v < 2 ^ fuel
    → value_after base (digit_text fuel v base acc) 0 ≡ value_after base acc v
unfolding digit_text value_after
value_after-digit_text zero v base acc big small fits enough =
    let z : 0 ≡ v = omega arith in ap (value_after base acc) z
value_after-digit_text (suc fuel) v base acc big small fits enough = elim (Bool-cases (v == 0)) [
  | inl z ↦ let e : 0 ≡ v = ground arith in rw (z, digit_text) (ap (value_after base acc) e)
  | inr z ↦
      let c = digit_char (v % base) in
      let d = div_lt v base (2 ^ fuel) big (omega arith) in
      let less = div_lt v base (2 ^ 64) big (omega arith) in
      let q = digit_value-digit_char (v % base) (mod_lt v base big small) in
      let whole = mul_div_mod v base big in
      let step : u64 (v / base * base + digit_value c) ≡ v = grind arith in
      rw (z, digit_text)
        (value_after-digit_text fuel (v / base) base (c ∷ acc) big small less d
          ∙ ap (value_after base acc) step)
]

-- A digit, not the sign, stands in front.
abbrev Unsigned : List ℕ → Type 0
Unsigned s = (c : ℕ) × (r : List ℕ) × (s ≡ c ∷ r) × (c ≢ b'-')

digit_text-Unsigned :
    (fuel v base : ℕ) (acc : List ℕ)
    → 2 ≤ base
    → base ≤ 36
    → Unsigned acc
    → Unsigned (digit_text fuel v base acc)
unfolding digit_text
digit_text-Unsigned zero v base acc big small u = u
digit_text-Unsigned (suc fuel) v base acc big small u = elim (Bool-cases (v == 0)) [
  | inl z ↦ rw (z, digit_text) u
  | inr z ↦
      let c = digit_char (v % base) in
      rw (z, digit_text)
        (digit_text-Unsigned fuel (v / base) base (c ∷ acc) big small
          (c, acc, refl, digit_char-ne-minus (v % base) (mod_lt v base big small)))
]

printed-Unsigned : (v base : ℕ) → v ≢ 0 → 2 ≤ base → base ≤ 36 → Unsigned (digit_text 64 v base [])
unfolding digit_text
printed-Unsigned v base ne big small =
    let z : (v == 0) ≡ false = ground arith in
    let c = digit_char (v % base) in
    rw (z, digit_text)
      (digit_text-Unsigned 63 (v / base) base (c ∷ []) big small
        (c, [], refl, digit_char-ne-minus (v % base) (mod_lt v base big small)))

zero_value : (base : ℕ) → value_after base (b'0' ∷ []) 0 ≡ 0
unfolding value_after digit_value is_digit
zero_value base = ground arith

-- Reading back in the base of printing gives the number, for every 64-bit number and every base
-- from 2 to 36.
pub to_int-to_string :
    (fresh scratch : Buffer) (v base : ℕ)
    → 2 ≤ base
    → base ≤ 36
    → v < 2 ^ 64
    → to_int (to_string fresh scratch v base) base ≡ v
unfolding value_after
to_int-to_string fresh scratch v base big small fits = elim (eq_or_ne v 0) [
  | inl z ↦
      let h = to_string_zero fresh scratch base in
      subst (λ x. to_int (to_string fresh scratch x base) base ≡ x) (sym z)
        (to_int-Holds (to_string fresh scratch 0 base) base b'0' [] h (omega arith)
          ∙ zero_value base)
  | inr ne ↦
      let text = to_string fresh scratch v base in
      let h = to_string-Holds fresh scratch v base ne big small in
      let (c, r, e, u) = printed-Unsigned v base ne big small in
      to_int-Holds text base c r (subst (Holds text) e h) u
      ∙ ap (λ s. value_after base s 0) (sym e)
      ∙ value_after-digit_text 64 v base [] big small fits fits
]

-- `str_combine` gives the one text followed by the other.
pub str_combine-Holds :
    (fresh a b : Buffer) (s r : List ℕ)
    → Holds a s
    → Holds b r
    → length s + length r < 2 ^ 64
    → Holds (str_combine fresh a b) (s ++ r)
unfolding str_combine
str_combine-Holds fresh a b s r h g small =
    let n = length s in
    let m = malloc_str fresh (n + length r + 1) in
    let t = copy_chars n 0 0 0 m a in
    let w = copy_chars (length r) 0 n 0 t b in
    let e : length (s ++ r) ≡ n + length r = length-append s r in
    let kept : Part w 0 s =
      Part-ext t w 0 0 s (copy_chars-Part 0 0 m a s h.chars)
        (λ k lt. copy_chars_before (length r) 0 n 0 t b (0 + k) (omega arith)) in
    let zero_n : n ≡ 0 + n = omega arith in
    let added : Part w (0 + n) r =
      subst (λ q. Part w q r) zero_n (copy_chars-Part n 0 t b r g.chars) in
    rw (str_length-Holds a s h, str_length-Holds b r g)
      record {
        chars =
            store-Part w 0 (n + length r) 0 (s ++ r) (Part-append w 0 s r kept added) (omega arith);
        ends = ap (store w (n + length r) 0) e ∙ store_self w (n + length r) 0;
        short = omega arith;
      }

minus_text-Holds : Holds minus_text (b'-' ∷ [])
unfolding minus_text store
minus_text-Holds = record { chars = (refl, omega arith, tt); ends = refl; short = omega arith }

digits_short : (v base : ℕ) → length (digit_text 64 v base []) ≤ 64
digits_short v base = omega (arith, digit_text-length 64 v base [])

last_lem :
    (v w base : ℕ)
    → 2 ^ 63 ≤ v
    → v < 2 ^ 64
    → w ≡ u64 (2 ^ 64 - v)
    → u64 (2 ^ 64 - value_after base [] w) ≡ v
unfolding value_after
last_lem v w base n fits e = omega arith

-- Reading back in the base of printing gives the number, for every pattern of an `int64_t`, also
-- that of the smallest one, and every base from 2 to 36.
pub to_int-to_string_signed :
    (fresh scratch joined : Buffer) (v base : ℕ)
    → 2 ≤ base
    → base ≤ 36
    → v < 2 ^ 64
    → to_int (to_string_signed fresh scratch joined v base) base ≡ v
unfolding to_string_signed
to_int-to_string_signed fresh scratch joined v base big small fits =
    elim (Bool-cases (ltb v (2 ^ 63))) [
      | inl up ↦ rw up (to_int-to_string fresh scratch v base big small fits)
      | inr down ↦
          let w = u64 (2 ^ 64 - v) in
          let n : 2 ^ 63 ≤ v = ground arith in
          let fit : w < 2 ^ 64 = omega arith in
          let s = digit_text 64 w base [] in
          let h = to_string-Holds fresh scratch w base (omega arith) big small in
          let j =
            str_combine-Holds joined minus_text (to_string fresh scratch w base) (b'-' ∷ []) s
              minus_text-Holds h (omega (arith, digits_short w base)) in
          let text = str_combine joined minus_text (to_string fresh scratch w base) in
          let back = value_after-digit_text 64 w base [] big small fit fit in
          rw down (
            to_int_negative text base s j
            ∙ ap (λ x. u64 (2 ^ 64 - x)) back
            ∙ last_lem v w base n fits refl)
    ]
