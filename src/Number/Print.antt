-- ===== src/Number/Print.antt =====
-- What `to_string` of kernel/types/string/string.cpp writes.
use esz_os.Base.{
  Bool-cases, inl, inr, ℕ, zero, suc, ◌+◌, ◌/◌, ◌%◌, ◌≤◌, ◌<◌, ◌≡◌, ◌≢◌, refl, ◌∙◌, ap, List, [],
  ◌∷◌, arith, true, false, ◌==◌, Buffer, store, store_self, store_ne, length, sym,
}
use esz_os.Str.{malloc_str, malloc_empty_str}
use esz_os.Str.Text.{Part, Holds}
use esz_os.Str.Copy.{store-Part}
use esz_os.Number.{count_digits, compose_digits, reverse_chars, digit_char, to_string}

-- The digits of `v` in front of `acc`, the highest first.
unfoldable pub digit_text : ℕ → ℕ → ℕ → List ℕ → List ℕ
digit_text zero v base acc = acc
digit_text (suc fuel) v base acc = elim (v == 0) [
  | true ↦ acc
  | false ↦ digit_text fuel (v / base) base (digit_char (v % base) ∷ acc)
]

-- The cells below `n`, read downwards, spell `s`.
abbrev pub Backwards : Buffer → ℕ → List ℕ → Type 0
Backwards t zero [] = Unit {0}
Backwards t zero (c ∷ s) = ⊥
Backwards t (suc n) [] = ⊥
Backwards t (suc n) (c ∷ s) = (t n ≡ c) × (c ≢ 0) × Backwards t n s

Backwards-store :
    (t : Buffer) (n i v : ℕ) (s : List ℕ) → n ≤ i → Backwards t n s → Backwards (store t i v) n s
Backwards-store t zero i v [] le b = tt
Backwards-store t zero i v (c ∷ s) le b = absurd b
Backwards-store t (suc n) i v [] le b = absurd b
Backwards-store t (suc n) i v (c ∷ s) le (e, ne, rest) =
    (store_ne t i v n (omega arith) ∙ e, ne, Backwards-store t n i v s (omega arith) rest)

pub digit_char-ne-zero : (d : ℕ) → d < 36 → digit_char d ≢ 0
unfolding digit_char
digit_char-ne-zero d lt = ground arith

mod_lt : (v base : ℕ) → 2 ≤ base → base ≤ 36 → v % base < 36
mod_lt v base big small = grind arith

compose_digits-Backwards :
    (fuel v base len : ℕ) (t : Buffer) (acc : List ℕ)
    → 2 ≤ base
    → base ≤ 36
    → Backwards t len acc
    → Backwards
        (compose_digits fuel v base len t).0
        (compose_digits fuel v base len t).1
        (digit_text fuel v base acc)
unfolding compose_digits digit_text
compose_digits-Backwards zero v base len t acc big small b = b
compose_digits-Backwards (suc fuel) v base len t acc big small b = elim (Bool-cases (v == 0)) [
  | inl z ↦ rw (z, compose_digits, digit_text) b
  | inr z ↦
      let c = digit_char (v % base) in
      rw (z, compose_digits, digit_text)
        (compose_digits-Backwards fuel (v / base) base (suc len) (store t len c) (c ∷ acc) big small
          (
            store_self t len c,
            digit_char-ne-zero (v % base) (mod_lt v base big small),
            Backwards-store t len len c acc (omega arith) b,
          ))
]

reverse_chars_before :
    (n counter : ℕ) (dest composed : Buffer) (q : ℕ)
    → q < counter
    → reverse_chars n counter dest composed q ≡ dest q
unfolding reverse_chars
reverse_chars_before zero counter dest composed q lt = refl
reverse_chars_before (suc n) counter dest composed q lt =
    reverse_chars_before n (counter + 1) (store dest counter (composed n)) composed q (omega arith)
    ∙ store_ne dest counter (composed n) q (omega arith)

reverse_chars-Part :
    (n counter : ℕ) (dest composed : Buffer) (s : List ℕ)
    → Backwards composed n s
    → Part (reverse_chars n counter dest composed) counter s
unfolding reverse_chars
reverse_chars-Part zero counter dest composed [] b = tt
reverse_chars-Part zero counter dest composed (c ∷ s) b = absurd b
reverse_chars-Part (suc n) counter dest composed [] b = absurd b
reverse_chars-Part (suc n) counter dest composed (c ∷ s) (e, ne, rest) = (
  reverse_chars_before n (counter + 1) (store dest counter (composed n)) composed counter
        (omega arith)
      ∙ store_self dest counter (composed n)
      ∙ e,
  ne,
  reverse_chars-Part n (counter + 1) (store dest counter (composed n)) composed s rest,
)

Backwards-length : (t : Buffer) (n : ℕ) (s : List ℕ) → Backwards t n s → n ≡ length s
Backwards-length t zero [] b = refl
Backwards-length t zero (c ∷ s) b = absurd b
Backwards-length t (suc n) [] b = absurd b
Backwards-length t (suc n) (c ∷ s) (e, ne, rest) = ap suc (Backwards-length t n s rest)

pub digit_text-length :
    (fuel v base : ℕ) (acc : List ℕ) → length (digit_text fuel v base acc) ≤ fuel + length acc
unfolding digit_text
digit_text-length zero v base acc = omega arith
digit_text-length (suc fuel) v base acc =
    let c = digit_char (v % base) in
    ground (arith, digit_text-length fuel (v / base) base (c ∷ acc))

-- A number other than 0 is printed as its digits in the base, the highest first.
pub to_string-Holds :
    (fresh scratch : Buffer) (v base : ℕ)
    → v ≢ 0
    → 2 ≤ base
    → base ≤ 36
    → Holds (to_string fresh scratch v base) (digit_text 64 v base [])
unfolding to_string
to_string-Holds fresh scratch v base ne big small =
    let n = count_digits 64 v base 0 in
    let t = malloc_str scratch (n + 1) in
    let r = malloc_str fresh (n + 1) in
    let s = digit_text 64 v base [] in
    let composed = (compose_digits 64 v base 0 t).0 in
    let len = (compose_digits 64 v base 0 t).1 in
    let b = compose_digits-Backwards 64 v base 0 t [] big small tt in
    let e : len ≡ length s = Backwards-length composed len s b in
    let part = reverse_chars-Part len 0 r composed s b in
    let bound = digit_text-length 64 v base [] in
    let v0 : (v == 0) ≡ false = ground arith in
    let b0 : (base == 0) ≡ false = ground arith in
    let b1 : (base == 1) ≡ false = ground arith in
    rw (v0, b0, b1)
      record {
        chars = store-Part (reverse_chars len 0 r composed) 0 len 0 s part (omega arith);
        ends =
            ap (store (reverse_chars len 0 r composed) len 0) (sym e)
            ∙ store_self (reverse_chars len 0 r composed) len 0;
        short = omega (arith, bound);
      }

-- Zero is printed as "0".
pub to_string_zero :
    (fresh scratch : Buffer) (base : ℕ) → Holds (to_string fresh scratch 0 base) (b'0' ∷ [])
unfolding to_string malloc_empty_str
to_string_zero fresh scratch base = record {
  chars = (
    store_ne (store (malloc_str fresh 2) 0 b'0') 1 0 0 (omega arith)
        ∙ store_self (malloc_str fresh 2) 0 b'0',
    omega arith,
    tt,
  );
  ends = store_self (store (malloc_str fresh 2) 0 b'0') 1 0;
  short = omega arith;
}
