-- ===== src/Filesystem/Tests.antt =====
-- An example for the current directory: "cd ab" in "/".
use esz_os.Base.{refl, arith, ◌==◌, if◌then◌else◌, [], ◌∷◌, ◌++◌, Buffer}
use esz_os.Str.Text.{Holds}
use esz_os.Filesystem.{slash_text, filesystem_change_directory}
use esz_os.Filesystem.Changing.{filesystem_change_directory-Holds}

abbrev ab_text : Buffer
ab_text i = if i == 0 then 97 else if i == 1 then 98 else 0

abbrev garbage : Buffer
garbage i = 7

root-Holds : Holds slash_text (b'/' ∷ [])
root-Holds = record { chars = (refl, omega arith, tt); ends = refl; short = omega arith }

ab-Holds : Holds ab_text (97 ∷ 98 ∷ [])
ab-Holds = record {
  chars = (refl, omega arith, (refl, omega arith, tt));
  ends = refl;
  short = omega arith;
}

filesystem_change_directory-Holds_example :
    Holds
      (filesystem_change_directory garbage ab_text slash_text)
      ((b'/' ∷ []) ++ ((97 ∷ 98 ∷ []) ++ (b'/' ∷ [])))
filesystem_change_directory-Holds_example =
    filesystem_change_directory-Holds garbage ab_text slash_text (b'/' ∷ []) (98 ∷ []) 97 root-Holds
      ab-Holds (omega arith, (omega arith, tt)) (omega arith)
