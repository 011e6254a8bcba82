-- ===== src/Str/Starts.antt =====
-- Where one text begins with another.
use esz_os.Base.{
  ℕ, zero, suc, ◌≤◌, ◌<◌, ◌≡◌, ◌↔◌, refl, ap, ap₂, List, [], ◌∷◌, ◌++◌, arith, length, sym, Bool,
  true, false, ◌==◌, Bool-cases, inl, inr, ==→eq,
}
use esz_os.Str.Text.{starts}

pub Bool_ext : {P : Type 0} → (a b : Bool) → (a ≡ true) ↔ P → (b ≡ true) ↔ P → a ≡ b
Bool_ext true true f g = refl
Bool_ext false false f g = refl
Bool_ext true false (f, _) (_, g) = sym (g (f refl))
Bool_ext false true (_, f) (g, _) = f (g refl)

pub starts_too_short : (r s : List ℕ) → length s < length r → starts r s ≡ false
unfolding starts
starts_too_short [] s lt = absurd (omega arith)
starts_too_short (c ∷ r) [] lt = refl
starts_too_short (c ∷ r) (d ∷ s) lt = ground (arith, starts_too_short r s (omega arith))

pub starts_cut : (r x y : List ℕ) → length r ≡ length x → (starts r (x ++ y) ≡ true) ↔ (r ≡ x)
unfolding starts
starts_cut [] [] y e = (λ _. refl, λ _. refl)
starts_cut [] (d ∷ x) y e = absurd (omega arith)
starts_cut (c ∷ r) [] y e = absurd (omega arith)
starts_cut (c ∷ r) (d ∷ x) y e =
    let (there, back) = starts_cut r x y (omega arith) in
    elim (Bool-cases (c == d)) [
      | inl same ↦
          let cd : c ≡ d = ==→eq c d same in rw same (λ h. ap₂ ◌∷◌ cd (there h), λ h. back (cc))
      | inr differ ↦
          rw differ (λ h. absurd (ground (arith, h)), λ h. absurd (ground (arith, differ)))
    ]

pub cut_at :
    (n : ℕ) (s : List ℕ)
    → n ≤ length s
    → (x : List ℕ) × (y : List ℕ) × (s ≡ x ++ y) × (length x ≡ n)
cut_at zero s le = ([], s, refl, refl)
cut_at (suc n) [] le = absurd (omega arith)
cut_at (suc n) (c ∷ s) le =
    let (x, y, e, f) = cut_at n s (omega arith) in (c ∷ x, y, ap (λ z. c ∷ z) e, omega arith)
