-- ===== src/Edit/Joining.antt =====
-- A String of kernel/types/string/string.h holds its parts after each other.
use esz_os.Base.{
  ℕ, ◌+◌, ◌^◌, ◌<◌, ◌≡◌, refl, ap, subst, arith, List, [], ◌∷◌, ◌++◌, length, length-append, Buffer,
}
use esz_os.Str.{str_length, malloc_str}
use esz_os.Str.Text.{Holds}
use esz_os.Str.Copy.{str_copy-Holds}
use esz_os.Number.{str_combine}
use esz_os.Number.RoundTrip.{str_combine-Holds}
use esz_os.Edit.Case.{malloc_str_clear}
use esz_os.Edit.Split.{HoldsAll}
use esz_os.Edit.StringClass.{to_cstr, combine_from, string_of}

-- The texts after each other.
unfoldable pub joined : List (List ℕ) → List ℕ
joined [] = []
joined (t ∷ texts) = t ++ joined texts

joined_nil : (s : List ℕ) → s ≡ s ++ []
joined_nil [] = refl
joined_nil (x ∷ s) = ap (λ z. x ∷ z) (joined_nil s)

joined_assoc : (a b c : List ℕ) → (a ++ b) ++ c ≡ a ++ (b ++ c)
joined_assoc [] b c = refl
joined_assoc (x ∷ a) b c = ap (λ z. x ∷ z) (joined_assoc a b c)

to_cstr-Holds : (fresh text : Buffer) (s : List ℕ) → Holds text s → Holds (to_cstr fresh text) s
unfolding to_cstr
to_cstr-Holds fresh text s h = str_copy-Holds (malloc_str fresh (str_length text + 1)) text s h

combine_from-Holds :
    (fresh content : Buffer) (s : List ℕ) (parts : List Buffer) (texts : List (List ℕ))
    → Holds content s
    → HoldsAll parts texts
    → length s + length (joined texts) < 2 ^ 64
    → Holds (combine_from fresh content parts) (s ++ joined texts)
unfolding combine_from joined
combine_from-Holds fresh content s [] [] h all short = subst (Holds content) (joined_nil s) h
combine_from-Holds fresh content s [] (t ∷ texts) h all short = absurd all
combine_from-Holds fresh content s (p ∷ parts) [] h all short = absurd all
combine_from-Holds fresh content s (p ∷ parts) (t ∷ texts) h (part, all) short =
    let n : length (t ++ joined texts) ≡ length t + length (joined texts) =
      length-append t (joined texts) in
    let m : length (s ++ t) ≡ length s + length t = length-append s t in
    let next =
      str_combine-Holds fresh content (to_cstr fresh p) s t h (to_cstr-Holds fresh p t part)
        (omega (arith, short, n)) in
    subst (Holds (combine_from fresh (str_combine fresh content (to_cstr fresh p)) parts))
      (joined_assoc s t (joined texts))
      (combine_from-Holds fresh (str_combine fresh content (to_cstr fresh p)) (s ++ t) parts texts
        next all (omega (arith, short, n, m)))

empty-Holds : (fresh : Buffer) → Holds (malloc_str fresh 1) []
empty-Holds fresh = record {
  chars = tt;
  ends = malloc_str_clear fresh 1 0 (omega arith);
  short = omega arith;
}

-- A String of parts that hold texts holds these after each other, if together they are shorter
-- than 2 ^ 64.
pub string_of-Holds :
    (fresh : Buffer) (parts : List Buffer) (texts : List (List ℕ))
    → HoldsAll parts texts
    → length (joined texts) < 2 ^ 64
    → Holds (string_of fresh parts) (joined texts)
unfolding string_of
string_of-Holds fresh parts texts all short =
    combine_from-Holds fresh (malloc_str fresh 1) [] parts texts (empty-Holds fresh) all
      (omega (arith, short))
