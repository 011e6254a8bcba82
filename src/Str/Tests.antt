-- ===== src/Str/Tests.antt =====
-- Examples for the C strings of kernel/types/string/string.cpp.
use esz_os.Base.{ℕ, ◌≡◌, ◌↔◌, true, refl, List, [], ◌∷◌, arith, ◌==◌, if◌then◌else◌, Buffer}
use esz_os.Str.{str_contains, str_count}
use esz_os.Str.Text.{Holds, starts, occurrences}
use esz_os.Str.Search.{Stands, str_contains_iff, str_count-occurrences}

-- "abab", "ab" and an array that nothing was written to.
abbrev abab_text : Buffer
abab_text i =
    if i == 0 then 97 else if i == 1 then 98 else if i == 2 then 97 else if i == 3 then 98 else 0

abbrev ab_text : Buffer
ab_text i = if i == 0 then 97 else if i == 1 then 98 else 0

abbrev garbage : Buffer
garbage i = 7

abbrev abab : List ℕ
abab = 97 ∷ 98 ∷ 97 ∷ 98 ∷ []

abbrev ab : List ℕ
ab = 97 ∷ 98 ∷ []

abab-Holds : Holds abab_text abab
abab-Holds = record {
  chars = (refl, omega arith, (refl, omega arith, (refl, omega arith, (refl, omega arith, tt))));
  ends = refl;
  short = omega arith;
}

ab-Holds : Holds ab_text ab
ab-Holds = record {
  chars = (refl, omega arith, (refl, omega arith, tt));
  ends = refl;
  short = omega arith;
}

str_contains_iff_example : (str_contains garbage abab_text ab_text ≡ true) ↔ Stands ab abab
str_contains_iff_example = str_contains_iff garbage abab_text ab_text abab ab abab-Holds ab-Holds

str_count-occurrences_example : str_count garbage abab_text ab_text ≡ occurrences ab abab
str_count-occurrences_example =
    str_count-occurrences garbage abab_text ab_text abab ab abab-Holds ab-Holds

two_places : occurrences ab abab ≡ 2
unfolding occurrences starts
two_places = refl
