-- ===== src/Edit/Case.antt =====
-- `str_to_upper` and `str_to_lower` of kernel/types/string/string.cpp.
use esz_os.Base.{
  eq_or_ne, inl, inr, ◌^◌, ℕ, zero, suc, ◌+◌, ◌<◌, ◌≡◌, ◌≢◌, refl, ◌∙◌, ap, List, [], ◌∷◌, arith,
  ◌&&◌, leb, ltb, if◌then◌else◌, Buffer, store, length, subst, sym,
}
use esz_os.Char.{to_upper, to_lower}
use esz_os.Char.Laws.{to_lower-ne-zero, to_upper-ne-zero}
use esz_os.Memory.{memory_clear}
use esz_os.Memory.Fill.{memory_fill_lem}
use esz_os.Str.{malloc_str}
use esz_os.Str.Text.{Part, Holds}
use esz_os.Str.Length.{str_length-Holds}
use esz_os.Edit.{map_chars, str_to_upper, str_to_lower}

unfoldable pub map_list : (ℕ → ℕ) → List ℕ → List ℕ
map_list f [] = []
map_list f (c ∷ s) = f c ∷ map_list f s

pub malloc_str_clear : (fresh : Buffer) (size q : ℕ) → q < size → malloc_str fresh size q ≡ 0
unfolding malloc_str memory_clear
malloc_str_clear fresh size q lt = ground (arith, memory_fill_lem fresh 0 0 size q (omega arith))

map_chars_lem :
    (f : ℕ → ℕ) (left i : ℕ) (dest text : Buffer) (q : ℕ)
    → map_chars f left i dest text q ≡ (if leb i q && ltb q (i + left) then f (text q) else dest q)
unfolding map_chars store
map_chars_lem f zero i dest text q = ground arith
map_chars_lem f (suc left) i dest text q =
    let next = map_chars_lem f left (i + 1) (store dest i (f (text i))) text q in
    elim (eq_or_ne q i) [
      | inl e ↦ ground (arith, next, ap (λ x. f (text x)) e)
      | inr ne ↦ ground (arith, next)
    ]

map_list-length : (f : ℕ → ℕ) (s : List ℕ) → length (map_list f s) ≡ length s
unfolding map_list
map_list-length f [] = refl
map_list-length f (c ∷ s) = ap suc (map_list-length f s)

map-Part :
    (f : ℕ → ℕ) (t u : Buffer) (p : ℕ) (s : List ℕ)
    → ((c : ℕ) → c ≢ 0 → f c ≢ 0)
    → Part t p s
    → ((k : ℕ) → k < length s → u (p + k) ≡ f (t (p + k)))
    → Part u p (map_list f s)
unfolding map_list
map-Part f t u p [] ne part same = tt
map-Part f t u p (c ∷ s) keeps (e, ne, rest) same = (
  let z : p + 0 ≡ p = omega arith in
      subst (λ x. u x ≡ f c) z (same 0 (omega arith) ∙ ap (λ x. f (t x)) z ∙ ap f e),
  keeps c ne,
  map-Part f t u (p + 1) s keeps rest (λ k lt.
      let z : p + suc k ≡ p + 1 + k = omega arith in
      subst (λ x. u x ≡ f (t x)) z (same (suc k) (omega arith))),
)

map_chars-Holds :
    (f : ℕ → ℕ) (fresh text : Buffer) (s : List ℕ)
    → ((c : ℕ) → c ≢ 0 → f c ≢ 0)
    → Holds text s
    → Holds (map_chars f (length s) 0 (malloc_str fresh (length s + 1)) text) (map_list f s)
map_chars-Holds f fresh text s keeps h =
    let n = length s in
    let m = malloc_str fresh (n + 1) in
    let e = map_list-length f s in
    record {
      chars =
          map-Part f text (map_chars f n 0 m text) 0 s keeps h.chars
            (λ k lt. ground (arith, map_chars_lem f n 0 m text (0 + k)));
      ends =
          ap (map_chars f n 0 m text) e
          ∙ ground
              (arith, map_chars_lem f n 0 m text n, malloc_str_clear fresh (n + 1) n (omega arith));
      short = subst (λ x. x < 2 ^ 64) (sym e) h.short;
    }

-- `str_to_upper` and `str_to_lower` give the text with every character mapped: of the same
-- length, terminated, also if the memory that malloc returns is not clear.
pub str_case-Holds :
    (fresh text : Buffer) (s : List ℕ)
    → Holds text s
    → Holds (str_to_upper fresh text) (map_list to_upper s)
      × Holds (str_to_lower fresh text) (map_list to_lower s)
unfolding str_to_upper str_to_lower
str_case-Holds fresh text s h = rw (str_length-Holds text s h) (
  map_chars-Holds to_upper fresh text s to_upper-ne-zero h,
  map_chars-Holds to_lower fresh text s to_lower-ne-zero h,
)
