-- ===== src/Edit/Trim.antt =====
-- `str_trim` of kernel/types/string/string.cpp.
use esz_os.Base.{
  ℕ, zero, suc, ◌+◌, ◌^◌, ◌≤◌, ◌<◌, ◌≡◌, refl, ◌∙◌, ap, List, [], ◌∷◌, ◌++◌, arith, Bool, true,
  false, ◌&&◌, not, Bool-cases, inl, inr, Buffer, store, store_self, store_ne, length,
  length-append, subst, sym,
}
use esz_os.Char.{is_whitespace}
use esz_os.Str.{malloc_str}
use esz_os.Str.Text.{Part, Holds, Part-left, Part-right}
use esz_os.Str.Length.{str_length-Holds}
use esz_os.Str.Copy.{store-Part}
use esz_os.Edit.{skip_blanks, cut_blanks, str_trim}
use esz_os.Edit.Case.{malloc_str_clear}

abbrev pub AllBlank : List ℕ → Type 0
AllBlank [] = Unit {0}
AllBlank (c ∷ s) = (is_whitespace c ≡ true) × AllBlank s

AllBlank-append : (s r : List ℕ) → AllBlank s → AllBlank r → AllBlank (s ++ r)
AllBlank-append [] r a b = b
AllBlank-append (c ∷ s) r (e, a) b = (e, AllBlank-append s r a b)

append_assoc : (a b c : List ℕ) → (a ++ b) ++ c ≡ a ++ (b ++ c)
append_assoc [] b c = refl
append_assoc (x ∷ a) b c = ap (λ z. x ∷ z) (append_assoc a b c)

append_nil : (a : List ℕ) → a ≡ a ++ []
append_nil [] = refl
append_nil (x ∷ a) = ap (λ z. x ∷ z) (append_nil a)

cut_last :
    (n : ℕ) (s : List ℕ)
    → length s ≡ suc n
    → (x : List ℕ) × (c : ℕ) × (s ≡ x ++ (c ∷ [])) × (length x ≡ n)
cut_last n [] e = absurd (omega arith)
cut_last zero (c ∷ []) e = ([], c, refl, refl)
cut_last zero (c ∷ d ∷ s) e = absurd (omega arith)
cut_last (suc n) (c ∷ s) e =
    let (x, d, f, g) = cut_last n s (omega arith) in (c ∷ x, d, ap (λ z. c ∷ z) f, omega arith)

-- The text does not end with a blank.
abbrev pub EndsTight : List ℕ → Type 0
EndsTight s = (x : List ℕ) (c : ℕ) → s ≡ x ++ (c ∷ []) → is_whitespace c ≡ false

EndsTight-nil : EndsTight []
EndsTight-nil [] c e = absurd (ground (arith, ap length e))
EndsTight-nil (d ∷ x) c e = absurd (ground (arith, ap length e))

last_char : (t : Buffer) (x : List ℕ) (c : ℕ) → Part t 0 (x ++ (c ∷ [])) → t (length x) ≡ c
last_char t x c part =
    let (e, _, _) = Part-right t 0 x (c ∷ []) part in
    let z : length x ≡ 0 + length x = omega arith in ap t z ∙ e

cut_blanks_lem :
    (n : ℕ) (t : Buffer) (s : List ℕ)
    → Part t 0 s
    → length s ≡ n
    → t n ≡ 0
    → (r : List ℕ) × (b : List ℕ) × (s ≡ r ++ b)
      × AllBlank b
      × EndsTight r
      × Part (cut_blanks n t) 0 r
      × (cut_blanks n t (length r) ≡ 0)
unfolding cut_blanks
cut_blanks_lem zero t [] part e z = ([], [], refl, tt, EndsTight-nil, tt, z)
cut_blanks_lem zero t (c ∷ s) part e z = absurd (omega arith)
cut_blanks_lem (suc n) t s part e z =
    let (x, c, f, g) = cut_last n s e in
    let part' : Part t 0 (x ++ (c ∷ [])) = subst (Part t 0) f part in
    let last : t n ≡ c = ap t (sym g) ∙ last_char t x c part' in
    elim (Bool-cases (is_whitespace (t n))) [
      | inl blank ↦
          let front = store-Part t 0 n 0 x (Part-left t 0 x (c ∷ []) part') (omega arith) in
          let (r, b, h, all, tight, p, q) =
            cut_blanks_lem n (store t n 0) x front g (store_self t n 0) in
          let whole : s ≡ r ++ (b ++ (c ∷ [])) =
            f ∙ ap (λ y. y ++ (c ∷ [])) h ∙ append_assoc r b (c ∷ []) in
          let blank_c : is_whitespace c ≡ true = ap is_whitespace (sym last) ∙ blank in
          rw (blank, cut_blanks)
            (r, b ++ (c ∷ []), whole, AllBlank-append b (c ∷ []) all (blank_c, tt), tight, p, q)
      | inr tight ↦
          let ends : EndsTight s = λ y d k.
            let len : suc n ≡ length y + 1 = sym e ∙ ap length k ∙ length-append y (d ∷ []) in
            let m : length y ≡ n = omega arith in
            ap is_whitespace (sym (last_char t y d (subst (Part t 0) k part)) ∙ ap t m) ∙ tight in
          rw (tight, cut_blanks) (s, [], append_nil s, tt, ends, part, ap t e ∙ z)
    ]

-- The text does not begin with a blank.
abbrev pub BeginsTight : List ℕ → Type 0
BeginsTight s = (c : ℕ) (x : List ℕ) → s ≡ c ∷ x → is_whitespace c ≡ false

-- What the loop of `skip_blanks` leaves in its array from `from` on.
abbrev pub Copied : Buffer × ℕ → ℕ → Buffer → List ℕ → Type 0
Copied out from dest s =
    Part (out.0) from s
    × (out.1 ≡ from + length s)
    × ((q : ℕ) → q < from → out.0 q ≡ dest q)
    × ((q : ℕ) → from + length s ≤ q → out.0 q ≡ dest q)

skip_step :
    (left i : ℕ) (spotted : Bool) (m : ℕ) (dest text : Buffer)
    → (is_whitespace (text i) && not spotted) ≡ false
    → skip_blanks (suc left) i spotted m dest text
      ≡ skip_blanks left (i + 1) true (m + 1) (store dest m (text i)) text
unfolding skip_blanks
skip_step left i spotted m dest text f = rw (f, skip_blanks) refl

skip_spotted :
    (i new_length : ℕ) (dest text : Buffer) (s : List ℕ)
    → Part text i s
    → Copied (skip_blanks (length s) i true new_length dest text) new_length dest s
unfolding skip_blanks
skip_spotted i m dest text [] part = (tt, omega arith, λ q lt. refl, λ q le. refl)
skip_spotted i m dest text (c ∷ s) (e, ne, rest) =
    let f : (is_whitespace (text i) && not true) ≡ false = ground arith in
    let (p, n, before, behind) = skip_spotted (i + 1) (m + 1) (store dest m (text i)) text s rest in
    subst (λ out. Copied out m dest (c ∷ s)) (sym (skip_step (length s) i true m dest text f))
      (
        (before m (omega arith) ∙ store_self dest m (text i) ∙ e, ne, p),
        omega (arith, n),
        λ q lt. before q (omega arith) ∙ store_ne dest m (text i) q (omega arith),
        λ q le. behind q (omega arith) ∙ store_ne dest m (text i) q (omega arith),
      )

skip_blanks_lem :
    (i : ℕ) (dest text : Buffer) (s : List ℕ)
    → Part text i s
    → (a : List ℕ) × (r : List ℕ) × (s ≡ a ++ r)
      × AllBlank a
      × BeginsTight r
      × Copied (skip_blanks (length s) i false 0 dest text) 0 dest r
unfolding skip_blanks
skip_blanks_lem i dest text [] part = (
  [],
  [],
  refl,
  tt,
  λ c x k. absurd (ground (arith, ap length k)),
  (tt, refl, λ q lt. refl, λ q le. refl),
)
skip_blanks_lem i dest text (c ∷ s) (e, ne, rest) = elim (Bool-cases (is_whitespace (text i))) [
  | inl blank ↦
      let f : (is_whitespace (text i) && not false) ≡ true = ground (arith, blank) in
      let (a, r, k, all, tight, copied) = skip_blanks_lem (i + 1) dest text s rest in
      rw (f, skip_blanks)
        (c ∷ a, r, ap (λ z. c ∷ z) k, (ap is_whitespace (sym e) ∙ blank, all), tight, copied)
  | inr tight ↦
      let f : (is_whitespace (text i) && not false) ≡ false = ground (arith, tight) in
      let begins : BeginsTight (c ∷ s) =
        λ d x k. ap is_whitespace (sym (ap head k) ∙ sym e) ∙ tight in
      let (p, n, before, behind) = skip_spotted (i + 1) 1 (store dest 0 (text i)) text s rest in
      (
        [],
        c ∷ s,
        refl,
        tt,
        begins,
        subst (λ out. Copied out 0 dest (c ∷ s)) (sym (skip_step (length s) i false 0 dest text f))
            (
              (before 0 (omega arith) ∙ store_self dest 0 (text i) ∙ e, ne, p),
              omega (arith, n),
              λ q lt. absurd (omega arith),
              λ q le. behind q (omega arith) ∙ store_ne dest 0 (text i) q (omega arith),
            ),
      )
]
  where
    head : List ℕ → ℕ
    head [] = 0
    head (c ∷ s) = c

-- `str_trim` gives the text without the blanks and tabs around it: what it cuts off is blank, and
-- what it leaves neither begins nor ends with a blank.
pub str_trim-Holds :
    (fresh text : Buffer) (s : List ℕ)
    → Holds text s
    → (a : List ℕ) × (r : List ℕ) × (b : List ℕ) × (s ≡ a ++ (r ++ b))
      × AllBlank a
      × AllBlank b
      × BeginsTight r
      × EndsTight r
      × Holds (str_trim fresh text) r
unfolding str_trim
str_trim-Holds fresh text s h =
    let m = malloc_str fresh (length s + 1) in
    let (a, u, e, all, begins, (p, n, before, behind)) = skip_blanks_lem 0 m text s h.chars in
    let out = skip_blanks (length s) 0 false 0 m text in
    let sum : length s ≡ length a + length u = ap length e ∙ length-append a u in
    let clear : out.0 (out.1) ≡ 0 =
      behind (out.1) (omega arith) ∙ malloc_str_clear fresh (length s + 1) (out.1) (omega arith) in
    let len : length u ≡ out.1 = omega arith in
    let (r, b, k, blank, tight, q, z) = cut_blanks_lem (out.1) (out.0) u p len clear in
    let parts : length u ≡ length r + length b = ap length k ∙ length-append r b in
    let begins' : BeginsTight r = λ c x j. begins c (x ++ b) (k ∙ ap (λ y. y ++ b) j) in
    let small : length r < 2 ^ 64 = omega (arith, h.short) in
    rw (str_length-Holds text s h) (
      a,
      r,
      b,
      e ∙ ap (λ y. a ++ y) k,
      all,
      blank,
      begins',
      tight,
      record { chars = q; ends = z; short = small },
    )
