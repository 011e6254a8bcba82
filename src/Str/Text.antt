-- ===== src/Str/Text.antt =====
-- What a buffer says as a text: characters up to the first zero.
use esz_os.Base.{
  Bool, true, false, ◌&&◌, ◌==◌, if◌then◌else◌, ℕ, zero, suc, ◌+◌, ◌^◌, ◌<◌, ◌≡◌, ◌≢◌, ◌∙◌, ap,
  List, [], ◌∷◌, ◌++◌, arith, Buffer, length, subst, sym,
}

-- The characters `s` stand from `p` on, and none of them is a terminator.
abbrev pub Part : Buffer → ℕ → List ℕ → Type 0
Part t p [] = Unit {0}
Part t p (c ∷ s) = (t p ≡ c) × (c ≢ 0) × Part t (p + 1) s

-- The buffer holds the text `s`, terminated.
pub record Holds (t : Buffer) (s : List ℕ) : Type 0 where
  pub chars : Part t 0 s
  pub ends : t (length s) ≡ 0
  pub short : length s < 2 ^ 64

pub Part-ext :
    (t u : Buffer) (p q : ℕ) (s : List ℕ)
    → Part t p s
    → ((k : ℕ) → k < length s → u (q + k) ≡ t (p + k))
    → Part u q s
Part-ext t u p q [] part same = tt
Part-ext t u p q (c ∷ s) (first, ne, rest) same = (
  let e : q + 0 ≡ q = omega arith in
      let f : p + 0 ≡ p = omega arith in
      let h : u (q + 0) ≡ t (p + 0) = same 0 (omega arith) in ap u (sym e) ∙ h ∙ ap t f ∙ first,
  ne,
  Part-ext t u (p + 1) (q + 1) s rest (λ k lt.
      let e : q + 1 + k ≡ q + suc k = omega arith in
      let f : p + 1 + k ≡ p + suc k = omega arith in
      ap u e ∙ same (suc k) (omega arith) ∙ ap t (sym f)),
)

pub Part-append :
    (t : Buffer) (p : ℕ) (s r : List ℕ) → Part t p s → Part t (p + length s) r → Part t p (s ++ r)
Part-append t p [] r a b = let e : p + 0 ≡ p = omega arith in subst (λ q. Part t q r) e b
Part-append t p (c ∷ s) r (first, ne, rest) b =
    let e : p + suc (length s) ≡ p + 1 + length s = omega arith in
    (first, ne, Part-append t (p + 1) s r rest (subst (λ q. Part t q r) e b))

pub Part-left : (t : Buffer) (p : ℕ) (s r : List ℕ) → Part t p (s ++ r) → Part t p s
Part-left t p [] r part = tt
Part-left t p (c ∷ s) r (first, ne, rest) = (first, ne, Part-left t (p + 1) s r rest)

pub Part-right : (t : Buffer) (p : ℕ) (s r : List ℕ) → Part t p (s ++ r) → Part t (p + length s) r
Part-right t p [] r part = let e : p ≡ p + 0 = omega arith in subst (λ q. Part t q r) e part
Part-right t p (c ∷ s) r (first, ne, rest) =
    let e : p + 1 + length s ≡ p + suc (length s) = omega arith in
    subst (λ q. Part t q r) e (Part-right t (p + 1) s r rest)

-- Two texts of one length at two places are equal exactly if the characters are.
pub Part-ne-zero : (t : Buffer) (p k : ℕ) (s : List ℕ) → Part t p s → k < length s → t (p + k) ≢ 0
Part-ne-zero t p k [] part lt = absurd (omega arith)
Part-ne-zero t p zero (c ∷ s) (first, ne, rest) lt =
    let e : p + 0 ≡ p = omega arith in λ z. ne (sym first ∙ ap t (sym e) ∙ z)
Part-ne-zero t p (suc k) (c ∷ s) (first, ne, rest) lt =
    let e : p + suc k ≡ p + 1 + k = omega arith in
    λ z. Part-ne-zero t (p + 1) k s rest (omega arith) (ap t (sym e) ∙ z)

-- `s` starts with `r`, and the places of `s` at which `r` stands.
unfoldable pub starts : List ℕ → List ℕ → Bool
starts [] s = true
starts (c ∷ r) [] = false
starts (c ∷ r) (d ∷ s) = c == d && starts r s

unfoldable pub occurs : List ℕ → List ℕ → Bool
unfolding starts
occurs r [] = starts r []
occurs r (c ∷ s) = if starts r (c ∷ s) then true else occurs r s

unfoldable pub occurrences : List ℕ → List ℕ → ℕ
unfolding starts
occurrences r [] = if starts r [] then 1 else 0
occurrences r (c ∷ s) = (if starts r (c ∷ s) then 1 else 0) + occurrences r s
