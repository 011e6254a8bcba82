-- ===== src/Edit/Split.antt =====
-- `str_split` of kernel/types/string/string.cpp.
use esz_os.Base.{
  ℕ, suc, ◌+◌, ◌-◌, ◌^◌, ◌<◌, ◌≤◌, ◌≡◌, ◌≢◌, inl, inr, refl, ◌∙◌, ap, sym, subst, arith, Bool, true,
  false, ◌&&◌, not, ◌==◌, if◌then◌else◌, Buffer, store, store_self, List, [], ◌∷◌, ◌++◌, length,
  eq_or_ne,
}
use esz_os.Str.{malloc_str, copy_chars}
use esz_os.Str.Text.{Part, Holds, Part-append}
use esz_os.Str.Length.{str_length-Holds}
use esz_os.Str.Copy.{copy_chars-Part, store-Part}
use esz_os.Edit.{count_parts, split_from, str_split}

-- The buffers hold the texts, one each.
abbrev pub HoldsAll : List Buffer → List (List ℕ) → Type 0
HoldsAll [] [] = Unit {0}
HoldsAll [] (t ∷ texts) = ⊥
HoldsAll (b ∷ buffers) [] = ⊥
HoldsAll (b ∷ buffers) (t ∷ texts) = Holds b t × HoldsAll buffers texts

-- The texts after each other, each behind the character `c`.
unfoldable pub glue : ℕ → List (List ℕ) → List ℕ
glue c [] = []
glue c (t ∷ texts) = c ∷ (t ++ glue c texts)

abbrev pub Without : ℕ → List ℕ → Type 0
Without c [] = Unit {0}
Without c (x ∷ s) = (x ≢ c) × Without c s

abbrev pub AllWithout : ℕ → List (List ℕ) → Type 0
AllWithout c [] = Unit {0}
AllWithout c (t ∷ texts) = Without c t × AllWithout c texts

-- The parts of `s`, with `acc` in front of the first.
unfoldable pub split_texts : ℕ → List ℕ → List ℕ → List (List ℕ)
split_texts c acc [] = acc ∷ []
split_texts c acc (x ∷ s) = elim (x == c) [
  | true ↦ acc ∷ split_texts c [] s
  | false ↦ split_texts c (acc ++ (x ∷ [])) s
]

append_one : (a : List ℕ) (x : ℕ) (s : List ℕ) → (a ++ (x ∷ [])) ++ s ≡ a ++ (x ∷ s)
append_one [] x s = refl
append_one (y ∷ a) x s = ap (λ z. y ∷ z) (append_one a x s)

append_nothing : (a : List ℕ) → a ≡ a ++ []
append_nothing [] = refl
append_nothing (x ∷ a) = ap (λ z. x ∷ z) (append_nothing a)

length_one : (a : List ℕ) (x : ℕ) → length (a ++ (x ∷ [])) ≡ length a + 1
length_one [] x = refl
length_one (y ∷ a) x = omega (arith, length_one a x)

Without-one : (c : ℕ) (a : List ℕ) (x : ℕ) → x ≢ c → Without c a → Without c (a ++ (x ∷ []))
Without-one c [] x ne w = (ne, tt)
Without-one c (y ∷ a) x ne (other, w) = (other, Without-one c a x ne w)

module _ (c : ℕ) where
  at_split :
      (acc : List ℕ) (x : ℕ) (s : List ℕ)
      → x ≡ c
      → split_texts c acc (x ∷ s) ≡ acc ∷ split_texts c [] s
  unfolding split_texts
  at_split acc x s e =
      let z : (x == c) ≡ true = ground (arith, e) in
      ap
        (λ b. elim b [
          | true ↦ acc ∷ split_texts c [] s
          | false ↦ split_texts c (acc ++ (x ∷ [])) s
        ])
        z

  in_part :
      (acc : List ℕ) (x : ℕ) (s : List ℕ)
      → x ≢ c
      → split_texts c acc (x ∷ s) ≡ split_texts c (acc ++ (x ∷ [])) s
  unfolding split_texts
  in_part acc x s ne =
      let z : (x == c) ≡ false = ground (arith, ne) in
      ap
        (λ b. elim b [
          | true ↦ acc ∷ split_texts c [] s
          | false ↦ split_texts c (acc ++ (x ∷ [])) s
        ])
        z

  split_texts-glue : (acc s : List ℕ) → glue c (split_texts c acc s) ≡ c ∷ (acc ++ s)
  unfolding split_texts glue
  split_texts-glue acc [] = refl
  split_texts-glue acc (x ∷ s) = elim (eq_or_ne x c) [
    | inl e ↦
        ap (glue c) (at_split acc x s e)
        ∙ ap (λ z. c ∷ (acc ++ z)) (split_texts-glue [] s ∙ ap (λ y. y ∷ s) (sym e))
    | inr ne ↦
        ap (glue c) (in_part acc x s ne)
        ∙ split_texts-glue (acc ++ (x ∷ [])) s
        ∙ ap (λ z. c ∷ z) (append_one acc x s)
  ]

  split_texts-AllWithout : (acc s : List ℕ) → Without c acc → AllWithout c (split_texts c acc s)
  unfolding split_texts
  split_texts-AllWithout acc [] w = (w, tt)
  split_texts-AllWithout acc (x ∷ s) w = elim (eq_or_ne x c) [
    | inl e ↦ subst (AllWithout c) (sym (at_split acc x s e)) (w, split_texts-AllWithout [] s tt)
    | inr ne ↦
        subst (AllWithout c) (sym (in_part acc x s ne))
          (split_texts-AllWithout (acc ++ (x ∷ [])) s (Without-one c acc x ne w))
  ]

  count_parts-split_texts :
      (s acc : List ℕ) (i : ℕ) (text : Buffer) (qty : ℕ)
      → Part text i s
      → count_parts (length s) i text c qty + 1 ≡ qty + length (split_texts c acc s)
  unfolding count_parts split_texts
  count_parts-split_texts [] acc i text qty part = refl
  count_parts-split_texts (x ∷ s) acc i text qty (e, ne, part) = elim (eq_or_ne x c) [
    | inl same ↦
        let next = count_parts-split_texts s [] (i + 1) text (qty + 1) part in
        let z : (text i == c) ≡ true = ground (arith, e, same) in
        let texts = ap length (at_split acc x s same) in
        ap (λ b. count_parts (length s) (i + 1) text c (if b then qty + 1 else qty) + 1) z
        ∙ omega (arith, next, texts)
    | inr other ↦
        let next = count_parts-split_texts s (acc ++ (x ∷ [])) (i + 1) text qty part in
        let z : (text i == c) ≡ false = ground (arith, e, other) in
        ap (λ b. count_parts (length s) (i + 1) text c (if b then qty + 1 else qty) + 1) z
        ∙ next
        ∙ ap (λ t. qty + length t) (sym (in_part acc x s other))
  ]

  module _ (fresh text : Buffer) (text_len : ℕ) (short : text_len < 2 ^ 64) where
    part_of : ℕ → ℕ → Buffer
    part_of i part_start =
        store
          (copy_chars (i - part_start) 0 0 part_start (malloc_str fresh (i - part_start + 1)) text)
          (i - part_start) 0

    part_of-Holds :
        (i part_start : ℕ) (acc : List ℕ)
        → Part text part_start acc
        → i ≡ part_start + length acc
        → i ≤ text_len
        → Holds (part_of i part_start) acc
    unfolding part_of
    part_of-Holds i part_start acc part e le =
        let n : length acc ≡ i - part_start = omega (arith, e) in
        subst
          (λ n. Holds (store (copy_chars n 0 0 part_start (malloc_str fresh (n + 1)) text) n 0) acc)
          n
          record {
            chars =
                store-Part
                  (copy_chars (length acc) 0 0 part_start (malloc_str fresh (length acc + 1)) text)
                  0 (length acc) 0 acc
                  (copy_chars-Part 0 part_start (malloc_str fresh (length acc + 1)) text acc part)
                  (omega arith);
            ends =
                store_self
                  (copy_chars (length acc) 0 0 part_start (malloc_str fresh (length acc + 1)) text)
                  (length acc) 0;
            short = omega (arith, e, le, short);
          }

    by_end : ℕ → ℕ → ℕ → Bool → List Buffer
    unfolding part_of
    by_end left i part_start b = elim b [
      | true ↦ split_from left (i + 1) part_start text_len fresh text c
      | false ↦ part_of i part_start ∷ split_from left (i + 1) (i + 1) text_len fresh text c
    ]

    split_step :
        (left i part_start : ℕ) (b : Bool)
        → (not (i == text_len) && not (text i == c)) ≡ b
        → split_from (suc left) i part_start text_len fresh text c ≡ by_end left i part_start b
    unfolding split_from by_end part_of
    split_step left i part_start b e = ap (by_end left i part_start) e

    none_left : (i : ℕ) → HoldsAll (split_from 0 i i text_len fresh text c) []
    unfolding split_from
    none_left i = tt

    split_from-HoldsAll :
        (s acc : List ℕ) (i part_start : ℕ)
        → Part text i s
        → Part text part_start acc
        → i ≡ part_start + length acc
        → text_len ≡ i + length s
        → HoldsAll
            (split_from (suc (length s)) i part_start text_len fresh text c)
            (split_texts c acc s)
    unfolding split_texts by_end
    split_from-HoldsAll [] acc i part_start part before at len =
        let z : (not (i == text_len) && not (text i == c)) ≡ false = ground (arith, len) in
        subst (λ l. HoldsAll l (acc ∷ [])) (sym (split_step 0 i part_start false z))
          (part_of-Holds i part_start acc before at (omega (arith, len)), none_left (i + 1))
    split_from-HoldsAll (x ∷ s) acc i part_start (e, ne, part) before at len = elim (eq_or_ne x c) [
      | inl same ↦
          let z : (not (i == text_len) && not (text i == c)) ≡ false = ground (arith, e, same) in
          let next =
            split_from-HoldsAll s [] (i + 1) (i + 1) part tt (omega arith) (omega (arith, len)) in
          subst (HoldsAll (split_from (suc (suc (length s))) i part_start text_len fresh text c))
            (sym (at_split acc x s same))
            (subst (λ l. HoldsAll l (acc ∷ split_texts c [] s))
              (sym (split_step (suc (length s)) i part_start false z))
              (part_of-Holds i part_start acc before at (omega (arith, len)), next))
      | inr other ↦
          let z : (not (i == text_len) && not (text i == c)) ≡ true =
            ground (arith, e, other, len) in
          let longer : Part text part_start (acc ++ (x ∷ [])) =
            Part-append text part_start acc (x ∷ []) before
              (subst (λ q. Part text q (x ∷ [])) at (e, ne, tt)) in
          let next =
            split_from-HoldsAll s (acc ++ (x ∷ [])) (i + 1) part_start part longer
              (omega (arith, at, length_one acc x)) (omega (arith, len)) in
          subst (HoldsAll (split_from (suc (suc (length s))) i part_start text_len fresh text c))
            (sym (in_part acc x s other))
            (subst (λ l. HoldsAll l (split_texts c (acc ++ (x ∷ [])) s))
              (sym (split_step (suc (length s)) i part_start true z)) next)
    ]

split_texts-single : (c : ℕ) (acc s : List ℕ) → Without c s → split_texts c acc s ≡ (acc ++ s) ∷ []
unfolding split_texts
split_texts-single c acc [] t = ap (λ a. a ∷ []) (append_nothing acc)
split_texts-single c acc (x ∷ s) (ne, t) =
    in_part c acc x s ne
    ∙ split_texts-single c (acc ++ (x ∷ [])) s t
    ∙ ap (λ a. a ∷ []) (append_one acc x s)

-- A text without the split character is its only part.
pub str_split-single :
    (fresh text : Buffer) (c : ℕ) (s : List ℕ)
    → Holds text s
    → Without c s
    → HoldsAll ((str_split fresh text c).0) (s ∷ [])
unfolding str_split
str_split-single fresh text c s h t =
    let one : suc (length s) ≡ length s + 1 = omega arith in
    let all =
      split_from-HoldsAll c fresh text (length s) h.short s [] 0 0 h.chars tt refl (omega arith) in
    rw (str_length-Holds text s h) (
      subst (HoldsAll (split_from (length s + 1) 0 0 (length s) fresh text c))
        (split_texts-single c [] s t)
        (subst (λ n. HoldsAll (split_from n 0 0 (length s) fresh text c) (split_texts c [] s)) one
          all))

-- `str_split` gives as many parts as it says. The parts are terminated texts without the split
-- character, and put after each other, each behind a split character, they give the text behind one.
pub str_split-HoldsAll :
    (fresh text : Buffer) (c : ℕ) (s : List ℕ)
    → Holds text s
    → (parts : List (List ℕ)) × HoldsAll ((str_split fresh text c).0) parts
      × ((str_split fresh text c).1 ≡ length parts)
      × AllWithout c parts
      × (glue c parts ≡ c ∷ s)
unfolding str_split
str_split-HoldsAll fresh text c s h =
    let one : suc (length s) ≡ length s + 1 = omega arith in
    let all =
      split_from-HoldsAll c fresh text (length s) (h.short) s [] 0 0 (h.chars) tt refl
        (omega arith) in
    rw (str_length-Holds text s h) (
      split_texts c [] s,
      subst (λ n. HoldsAll (split_from n 0 0 (length s) fresh text c) (split_texts c [] s)) one all,
      omega (arith, count_parts-split_texts c s [] 0 text 1 (h.chars)),
      split_texts-AllWithout c [] s tt,
      split_texts-glue c [] s,
    )
