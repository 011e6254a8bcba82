-- ===== src/Edit/Tests.antt =====
-- Examples for the operations that give a new text.
use esz_os.Base.{length, ℕ, ◌≡◌, refl, List, [], ◌∷◌, ◌++◌, arith, ◌==◌, if◌then◌else◌, Buffer}
use esz_os.Str.Text.{Holds}
use esz_os.Edit.Split.{HoldsAll, AllWithout, glue, str_split-HoldsAll}
use esz_os.Edit.{str_split, str_trim}
use esz_os.Edit.Trim.{AllBlank, BeginsTight, EndsTight, str_trim-Holds}

-- " a\t"
abbrev padded_text : Buffer
padded_text i = if i == 0 then 32 else if i == 1 then 97 else if i == 2 then 9 else 0

abbrev padded : List ℕ
padded = 32 ∷ 97 ∷ 9 ∷ []

abbrev garbage : Buffer
garbage i = 7

padded-Holds : Holds padded_text padded
padded-Holds = record {
  chars = (refl, omega arith, (refl, omega arith, (refl, omega arith, tt)));
  ends = refl;
  short = omega arith;
}

str_trim-Holds_example :
    (a : List ℕ) × (r : List ℕ) × (b : List ℕ) × (padded ≡ a ++ (r ++ b))
    × AllBlank a
    × AllBlank b
    × BeginsTight r
    × EndsTight r
    × Holds (str_trim garbage padded_text) r
str_trim-Holds_example = str_trim-Holds garbage padded_text padded padded-Holds

str_split-HoldsAll_example :
    (parts : List (List ℕ)) × HoldsAll ((str_split garbage padded_text 97).0) parts
    × ((str_split garbage padded_text 97).1 ≡ length parts)
    × AllWithout 97 parts
    × (glue 97 parts ≡ 97 ∷ padded)
str_split-HoldsAll_example = str_split-HoldsAll garbage padded_text 97 padded padded-Holds
