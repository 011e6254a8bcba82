-- ===== src/History/Tests.antt =====
-- Examples for the command history.
use esz_os.Base.{ℕ, ◌++◌, refl, arith, ◌==◌, if◌then◌else◌, List, [], ◌∷◌, Buffer}
use esz_os.Str.Text.{Holds}
use esz_os.History.{History, add_command_to_history}
use esz_os.History.Stored.{Remembers, kept_commands, add_command_to_history-Remembers}

-- The command "ls", and a history that holds it once.
abbrev ls_text : Buffer
ls_text i = if i == 0 then 108 else if i == 1 then 115 else 0

abbrev ls : List ℕ
ls = 108 ∷ 115 ∷ []

ls-Holds : Holds ls_text ls
ls-Holds = record {
  chars = (refl, omega arith, (refl, omega arith, tt));
  ends = refl;
  short = omega arith;
}

abbrev ls_history : History
ls_history = record { entries = λ i. ls_text; count = 1; go_through = 1 }

ls-Remembers : Remembers ls_history (ls ∷ [])
ls-Remembers = record { stored = (ls-Holds, tt); counted = refl; bounded = omega arith }

add_command_to_history-Remembers_example :
    Remembers (add_command_to_history ls_text ls_history) (kept_commands (ls ∷ []) ++ (ls ∷ []))
add_command_to_history-Remembers_example =
    add_command_to_history-Remembers ls_history ls_text (ls ∷ []) ls ls-Remembers ls-Holds
