-- ===== src/Str/Search.antt =====
-- `str_starts_with`, `str_contains` and `str_count` of kernel/types/string/string.cpp.
use esz_os.Base.{
  ℕ, zero, suc, ◌+◌, ◌-◌, ◌^◌, ◌≤◌, ◌<◌, ◌≡◌, ◌↔◌, refl, ◌∙◌, ap, ap₂, List, [], ◌∷◌, ◌++◌, arith,
  Buffer, store, store_self, length, subst, sym, true, false, ◌==◌, ltb, if◌then◌else◌, Bool-cases,
  inl, inr, ==→eq, ltb→lt,
}
use esz_os.Str.{
  copy_chars, window, same_chars, str_equal, str_starts_with, contains_from, count_from,
  str_contains, str_count,
}
use esz_os.Str.Text.{Part, Holds, Part-left, starts, occurs, occurrences}
use esz_os.Str.Length.{str_length-Holds, str_equal_iff, same_chars_iff}
use esz_os.Str.Copy.{copy_chars-Part, store-Part}
use esz_os.Str.Starts.{Bool_ext, starts_too_short, starts_cut, cut_at}

-- `str_starts_with` decides whether the one text begins with the other.
pub str_starts_with-Holds :
    (text search_text : Buffer) (s r : List ℕ)
    → Holds text s
    → Holds search_text r
    → str_starts_with text search_text ≡ starts r s
unfolding str_starts_with
str_starts_with-Holds text search_text s r h g =
    rw (str_length-Holds text s h, str_length-Holds search_text r g)
      elim (Bool-cases (ltb (length s) (length r))) [
        | inl short ↦ rw short (sym (starts_too_short r s (ltb→lt (length s) (length r) short)))
        | inr long ↦
            let (x, y, e, f) = cut_at (length r) s (ground arith) in
            let part : Part text 0 x =
              Part-left text 0 x y (subst (λ q. Part text 0 q) e h.chars) in
            let (there, back) = starts_cut r x y (sym f) in
            rw long (
              Bool_ext (same_chars (length r) 0 0 text search_text) (starts r s)
                (subst (λ n. (same_chars n 0 0 text search_text ≡ true) ↔ (x ≡ r)) f
                  (same_chars_iff text search_text 0 0 x r f part g.chars))
                (λ t. sym (there (ap (starts r) (sym e) ∙ t)), λ q. ap (starts r) e ∙ back (sym q)))
      ]

-- The comparison of one round: the window at `i` is compared with the start of what is left.
window_lem :
    (i : ℕ) (text search_text comparison : Buffer) (s r : List ℕ)
    → Part text i s
    → Holds search_text r
    → length r ≤ length s
    → str_equal search_text (window (length r) i text comparison) ≡ starts r s
unfolding window
window_lem i text search_text comparison s r part g le =
    let (x, y, e, f) = cut_at (length r) s le in
    let t = copy_chars (length r) 0 0 i comparison text in
    let front : Part text i x = Part-left text i x y (subst (λ q. Part text i q) e part) in
    let copied : Part t 0 x =
      subst (λ n. Part (copy_chars n 0 0 i comparison text) 0 x) f
        (copy_chars-Part 0 i comparison text x front) in
    let filled : Holds (store t (length r) 0) x = record {
      chars = store-Part t 0 (length r) 0 x copied (omega arith);
      ends = ap (store t (length r) 0) f ∙ store_self t (length r) 0;
      short = subst (λ n. n < 2 ^ 64) (sym f) g.short;
    } in
    Bool_ext (str_equal search_text (store t (length r) 0)) (starts r s)
      (str_equal_iff search_text (store t (length r) 0) r x g filled)
      (subst (λ z. (starts r z ≡ true) ↔ (r ≡ x)) (sym e) (starts_cut r x y (sym f)))

occurs_too_short : (r s : List ℕ) → length s < length r → occurs r s ≡ false
unfolding occurs
occurs_too_short r [] lt = starts_too_short r [] lt
occurs_too_short r (c ∷ s) lt =
    ground (arith, starts_too_short r (c ∷ s) lt, occurs_too_short r s (omega arith))

occurrences_too_short : (r s : List ℕ) → length s < length r → occurrences r s ≡ 0
unfolding occurrences
occurrences_too_short r [] lt = ground (arith, starts_too_short r [] lt)
occurrences_too_short r (c ∷ s) lt =
    ground (arith, starts_too_short r (c ∷ s) lt, occurrences_too_short r s (omega arith))

-- `r` stands in `s`, between some `a` and some `b`.
abbrev pub Stands : List ℕ → List ℕ → Type 0
Stands r s = (a : List ℕ) × (b : List ℕ) × (s ≡ a ++ (r ++ b))

starts_sound : (r s : List ℕ) → starts r s ≡ true → (b : List ℕ) × (s ≡ r ++ b)
unfolding starts
starts_sound [] s e = (s, refl)
starts_sound (c ∷ r) [] e = absurd (ground (arith, e))
starts_sound (c ∷ r) (d ∷ s) e = elim (Bool-cases (c == d)) [
  | inl same ↦
      let (b, f) = starts_sound r s (ground (arith, e)) in (b, ap₂ ◌∷◌ (sym (==→eq c d same)) f)
  | inr differ ↦ absurd (ground (arith, e))
]

starts_own : (r b : List ℕ) → starts r (r ++ b) ≡ true
unfolding starts
starts_own [] b = refl
starts_own (c ∷ r) b = ground (arith, starts_own r b)

occurs_sound : (r s : List ℕ) → occurs r s ≡ true → Stands r s
unfolding occurs
occurs_sound r [] e = let (b, f) = starts_sound r [] e in ([], b, f)
occurs_sound r (c ∷ s) e = elim (Bool-cases (starts r (c ∷ s))) [
  | inl here ↦ let (b, f) = starts_sound r (c ∷ s) here in ([], b, f)
  | inr later ↦
      let (a, b, f) = occurs_sound r s (ground (arith, e)) in (c ∷ a, b, ap (λ z. c ∷ z) f)
]

occurs_between : (r a b : List ℕ) → occurs r (a ++ (r ++ b)) ≡ true
unfolding occurs
occurs_between [] [] [] = refl
occurs_between [] [] (c ∷ b) = ground (arith, starts_own [] (c ∷ b))
occurs_between (d ∷ r) [] b = ground (arith, starts_own (d ∷ r) b)
occurs_between r (c ∷ a) b = ground (arith, occurs_between r a b)

occurs_iff : (r s : List ℕ) → (occurs r s ≡ true) ↔ Stands r s
occurs_iff r s =
    (occurs_sound r s, λ h. let (a, b, f) = h in ap (occurs r) f ∙ occurs_between r a b)

contains_from_lem :
    (l i : ℕ) (text search_text comparison : Buffer) (s r : List ℕ)
    → Part text i s
    → Holds search_text r
    → length s ≡ l + length r
    → contains_from (length r) text search_text (l + 1) i comparison ≡ occurs r s
unfolding contains_from occurs
contains_from_lem zero i text search_text comparison [] r part g e =
    let w = window_lem i text search_text comparison [] r part g (omega arith) in ground (arith, w)
contains_from_lem zero i text search_text comparison (c ∷ s) r part g e =
    let w = window_lem i text search_text comparison (c ∷ s) r part g (omega arith) in
    ground (arith, w, occurs_too_short r s (omega arith))
contains_from_lem (suc l) i text search_text comparison [] r part g e = absurd (omega arith)
contains_from_lem (suc l) i text search_text comparison (c ∷ s) r part g e =
    let w = window_lem i text search_text comparison (c ∷ s) r part g (omega arith) in
    let (_, _, rest) = part in
    let filled = window (length r) i text comparison in
    let next = contains_from_lem l (i + 1) text search_text filled s r rest g (omega arith) in
    ground (arith, w, next)

count_from_lem :
    (l i : ℕ) (text search_text comparison : Buffer) (hits : ℕ) (s r : List ℕ)
    → Part text i s
    → Holds search_text r
    → length s ≡ l + length r
    → count_from (length r) text search_text (l + 1) i comparison hits ≡ hits + occurrences r s
unfolding count_from occurrences
count_from_lem zero i text search_text comparison hits [] r part g e =
    let w = window_lem i text search_text comparison [] r part g (omega arith) in ground (arith, w)
count_from_lem zero i text search_text comparison hits (c ∷ s) r part g e =
    let w = window_lem i text search_text comparison (c ∷ s) r part g (omega arith) in
    ground (arith, w, occurrences_too_short r s (omega arith))
count_from_lem (suc l) i text search_text comparison hits [] r part g e = absurd (omega arith)
count_from_lem (suc l) i text search_text comparison hits (c ∷ s) r part g e =
    let w = window_lem i text search_text comparison (c ∷ s) r part g (omega arith) in
    let (_, _, rest) = part in
    let filled = window (length r) i text comparison in
    let n = if str_equal search_text filled then hits + 1 else hits in
    let next = count_from_lem l (i + 1) text search_text filled n s r rest g (omega arith) in
    ground (arith, w, next)

-- `str_contains` is true exactly if the search text stands somewhere in the text, whatever its
-- array on the stack holds at first.
pub str_contains_iff :
    (stack text search_text : Buffer) (s r : List ℕ)
    → Holds text s
    → Holds search_text r
    → (str_contains stack text search_text ≡ true) ↔ Stands r s
unfolding str_contains
str_contains_iff stack text search_text s r h g =
    rw (str_length-Holds text s h, str_length-Holds search_text r g)
      elim (Bool-cases (ltb (length s) (length r))) [
        | inl short ↦
            rw (short, sym (occurs_too_short r s (ltb→lt (length s) (length r) short)))
              (occurs_iff r s)
        | inr long ↦
            rw
              (
                long,
                contains_from_lem (length s - length r) 0 text search_text stack s r h.chars g
                    (ground arith),
              )
              (occurs_iff r s)
      ]

-- `str_count` counts the places of the text at which the search text stands, also those that
-- overlap; an empty search text stands at every place, the end included.
pub str_count-occurrences :
    (stack text search_text : Buffer) (s r : List ℕ)
    → Holds text s
    → Holds search_text r
    → str_count stack text search_text ≡ occurrences r s
unfolding str_count
str_count-occurrences stack text search_text s r h g =
    rw (str_length-Holds text s h, str_length-Holds search_text r g)
      elim (Bool-cases (ltb (length s) (length r))) [
        | inl short ↦
            rw short (sym (occurrences_too_short r s (ltb→lt (length s) (length r) short)))
        | inr long ↦
            let count =
              count_from_lem (length s - length r) 0 text search_text stack 0 s r h.chars g
                (ground arith) in
            rw long (count ∙ omega arith)
      ]
