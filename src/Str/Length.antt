-- ===== src/Str/Length.antt =====
-- `str_length`, `str_equal`, `str_starts_with` and `str_ends_with` of kernel/types/string/string.cpp.
use esz_os.Base.{
  ℕ, zero, suc, ◌+◌, ◌^◌, ◌<◌, ◌≡◌, ◌↔◌, refl, ◌∙◌, ap, ap₂, List, [], ◌∷◌, arith, Buffer, length,
  true, false, ◌==◌, subst, sym, Bool-cases, inl, inr, ==→eq,
}
use esz_os.Str.{scan_length, str_length, same_chars, str_equal}
use esz_os.Str.Text.{Part, Holds}

scan_length_lem :
    (fuel : ℕ) (t : Buffer) (p : ℕ) (s : List ℕ)
    → Part t p s
    → t (p + length s) ≡ 0
    → length s < fuel
    → scan_length fuel t p ≡ p + length s
unfolding scan_length
scan_length_lem zero t p s part ends enough = absurd (omega arith)
scan_length_lem (suc fuel) t p [] part ends enough =
    let e : p + 0 ≡ p = omega arith in let z : t p ≡ 0 = ap t (sym e) ∙ ends in ground arith
scan_length_lem (suc fuel) t p (c ∷ s) (first, ne, rest) ends enough =
    let e : p + suc (length s) ≡ p + 1 + length s = omega arith in
    let z : t (p + 1 + length s) ≡ 0 = ap t (sym e) ∙ ends in
    ground (arith, scan_length_lem fuel t (p + 1) s rest z (omega arith))

-- The loop of `str_length` ends on a terminated text that fits the address space, at its length.
pub str_length-Holds : (t : Buffer) (s : List ℕ) → Holds t s → str_length t ≡ length s
unfolding str_length
str_length-Holds t s h =
    let e : 0 + length s ≡ length s = omega arith in
    scan_length_lem (2 ^ 64) t 0 s h.chars (ap t e ∙ h.ends) h.short ∙ e

pub same_chars_iff :
    (a b : Buffer) (from i : ℕ) (s r : List ℕ)
    → length s ≡ length r
    → Part a (from + i) s
    → Part b i r
    → (same_chars (length s) from i a b ≡ true) ↔ (s ≡ r)
unfolding same_chars
same_chars_iff a b from i [] [] e x y = (λ _. refl, λ _. refl)
same_chars_iff a b from i [] (d ∷ r) e x y = absurd (omega arith)
same_chars_iff a b from i (c ∷ s) [] e x y = absurd (omega arith)
same_chars_iff a b from i (c ∷ s) (d ∷ r) e (first, _, rest) (first', _, rest') =
    let q : from + i + 1 ≡ from + (i + 1) = omega arith in
    let (there, back) =
      same_chars_iff a b from (i + 1) s r (omega arith) (subst (λ k. Part a k s) q rest) rest' in
    elim (Bool-cases (c == d)) [
      | inl same ↦
          let t : (a (from + i) == b i) ≡ true = ground arith in
          let cd : c ≡ d = ==→eq c d same in
          rw (t, same_chars) (λ h. ap₂ ◌∷◌ cd (there h), λ h. back (cc))
      | inr differ ↦
          let t : (a (from + i) == b i) ≡ false = ground arith in
          rw (t, same_chars) (λ h. cc, λ h. absurd (ground arith))
    ]

-- `str_equal` is true of two buffers that hold texts exactly if the texts are the same.
pub str_equal_iff :
    (a b : Buffer) (s r : List ℕ) → Holds a s → Holds b r → (str_equal a b ≡ true) ↔ (s ≡ r)
unfolding str_equal
str_equal_iff a b s r h g =
    rw (str_length-Holds a s h, str_length-Holds b r g)
      elim (Bool-cases (length s == length r)) [
        | inl same ↦
            rw same (same_chars_iff a b 0 0 s r (==→eq (length s) (length r) same) h.chars g.chars)
        | inr differ ↦ rw differ (λ e. absurd (ground (arith, e)), λ e. ground (arith, ap length e))
      ]
