-- ===== src/Str/Copy.antt =====
-- `str_copy` and `str_add` of kernel/types/string/string.cpp.
use esz_os.Base.{
  ℕ, zero, suc, ◌+◌, ◌^◌, ◌≤◌, ◌<◌, ◌≡◌, ◌≢◌, refl, ◌∙◌, ap, List, [], ◌∷◌, ◌++◌, arith, Buffer,
  store, store_self, store_ne, length, length-append, subst, sym,
}
use esz_os.Str.{copy_chars, str_copy, str_add, str_add_char}
use esz_os.Str.Text.{Part, Holds, Part-ext, Part-append}
use esz_os.Str.Length.{str_length-Holds}

pub copy_chars_before :
    (left j to from : ℕ) (dest src : Buffer) (q : ℕ)
    → q < to + j
    → copy_chars left j to from dest src q ≡ dest q
unfolding copy_chars
copy_chars_before zero j to from dest src q lt = refl
copy_chars_before (suc left) j to from dest src q lt =
    copy_chars_before left (j + 1) to from (store dest (to + j) (src (from + j))) src q
      (omega arith)
    ∙ store_ne dest (to + j) (src (from + j)) q (omega arith)

pub copy_chars_in :
    (left j to from : ℕ) (dest src : Buffer) (k : ℕ)
    → k < left
    → copy_chars left j to from dest src (to + (j + k)) ≡ src (from + (j + k))
unfolding copy_chars
copy_chars_in zero j to from dest src k lt = absurd (omega arith)
copy_chars_in (suc left) j to from dest src zero lt =
    let e : j + 0 ≡ j = omega arith in
    subst
      (λ x.
        copy_chars left (j + 1) to from (store dest (to + j) (src (from + j))) src (to + x)
        ≡ src (from + x))
      (sym e)
      (copy_chars_before left (j + 1) to from (store dest (to + j) (src (from + j))) src (to + j)
          (omega arith)
        ∙ store_self dest (to + j) (src (from + j)))
copy_chars_in (suc left) j to from dest src (suc k) lt =
    let e : j + 1 + k ≡ j + suc k = omega arith in
    subst
      (λ x.
        copy_chars left (j + 1) to from (store dest (to + j) (src (from + j))) src (to + x)
        ≡ src (from + x))
      e
      (copy_chars_in left (j + 1) to from (store dest (to + j) (src (from + j))) src k
        (omega arith))

-- Copying `length s` characters of a part puts that part at its destination.
pub copy_chars-Part :
    (to from : ℕ) (dest src : Buffer) (s : List ℕ)
    → Part src from s
    → Part (copy_chars (length s) 0 to from dest src) to s
copy_chars-Part to from dest src s part =
    Part-ext src (copy_chars (length s) 0 to from dest src) from to s part (λ k lt.
      let e : 0 + k ≡ k = omega arith in
      subst (λ x. copy_chars (length s) 0 to from dest src (to + x) ≡ src (from + x)) e
        (copy_chars_in (length s) 0 to from dest src k lt))

-- A store behind a part keeps it.
pub store-Part :
    (t : Buffer) (p i v : ℕ) (s : List ℕ) → Part t p s → p + length s ≤ i → Part (store t i v) p s
store-Part t p i v s part le =
    Part-ext t (store t i v) p p s part (λ k lt. store_ne t i v (p + k) (omega arith))

-- `str_copy` makes the destination hold the text of the source, whatever it held before.
pub str_copy-Holds : (dest src : Buffer) (s : List ℕ) → Holds src s → Holds (str_copy dest src) s
unfolding str_copy
str_copy-Holds dest src s h = rw (str_length-Holds src s h) record {
  chars =
      store-Part (copy_chars (length s) 0 0 0 dest src) 0 (length s) 0 s
        (copy_chars-Part 0 0 dest src s h.chars) (omega arith);
  ends = store_self (copy_chars (length s) 0 0 0 dest src) (length s) 0;
  short = h.short;
}

-- `str_add` makes the target hold its own text followed by the text of the value, if the two
-- together are shorter than 2 ^ 64.
pub str_add-Holds :
    (target value : Buffer) (s r : List ℕ)
    → Holds target s
    → Holds value r
    → length s + length r < 2 ^ 64
    → Holds (str_add target value) (s ++ r)
unfolding str_add
str_add-Holds target value s r h g small =
    let n = length s in
    let t = copy_chars (length r) 0 n 0 target value in
    let e : length (s ++ r) ≡ n + length r = length-append s r in
    let kept : Part t 0 s =
      Part-ext target t 0 0 s h.chars
        (λ k lt. copy_chars_before (length r) 0 n 0 target value (0 + k) (omega arith)) in
    let zero_n : n ≡ 0 + n = omega arith in
    let added : Part t (0 + n) r =
      subst (λ q. Part t q r) zero_n (copy_chars-Part n 0 target value r g.chars) in
    rw (str_length-Holds target s h, str_length-Holds value r g)
      record {
        chars =
            store-Part t 0 (n + length r) 0 (s ++ r) (Part-append t 0 s r kept added) (omega arith);
        ends = ap (store t (n + length r) 0) e ∙ store_self t (n + length r) 0;
        short = omega arith;
      }

-- `str_add` with a character other than the terminator makes the target hold one character more.
pub str_add_char-Holds :
    (target : Buffer) (c : ℕ) (s : List ℕ)
    → Holds target s
    → c ≢ 0
    → length s + 1 < 2 ^ 64
    → Holds (str_add_char target c) (s ++ c ∷ [])
unfolding str_add_char
str_add_char-Holds target c s h ne small =
    let n = length s in
    let t = store target n c in
    let e : length (s ++ c ∷ []) ≡ n + 1 = length-append s (c ∷ []) in
    let kept : Part t 0 s = store-Part target 0 n c s h.chars (omega arith) in
    let zero_n : n ≡ 0 + n = omega arith in
    let added : Part t (0 + n) (c ∷ []) =
      subst (λ q. Part t q (c ∷ [])) zero_n (store_self target n c, ne, tt) in
    rw (str_length-Holds target s h) record {
      chars =
          store-Part t 0 (n + 1) 0 (s ++ c ∷ []) (Part-append t 0 s (c ∷ []) kept added)
            (omega arith);
      ends = ap (store t (n + 1) 0) e ∙ store_self t (n + 1) 0;
      short = omega arith;
    }
