-- ===== src/Shell/Tests.antt =====
-- An example for the command line: "cd a".
use esz_os.Base.{refl, arith, true, ◌==◌, if◌then◌else◌, [], ◌∷◌, ◌++◌, Buffer}
use esz_os.Str.Text.{Holds}
use esz_os.Terminal.{InputLine}
use esz_os.History.{History}
use esz_os.Shell.{process_line_input_buffer}
use esz_os.Shell.Dispatch.{IsProcessed, process_line_input_buffer-IsProcessed}

abbrev cd_text : Buffer
cd_text i =
    if i == 0 then 99 else if i == 1 then 100 else if i == 2 then 32 else if i == 3 then 97 else 0

abbrev cd_line : InputLine
cd_line = record {
  input_length = 4;
  buffer = cd_text;
  cursor_pos = 4;
  start_x = 5;
  cursor_x = 9;
  cells = λ i. record { color = 0; text = 0; interactable = true };
  amount_of_cells = 9;
}

abbrev no_history : History
no_history = record { entries = λ i j. 0; count = 0; go_through = 0 }

cd-Holds : Holds cd_text ((99 ∷ 100 ∷ []) ++ (b' ' ∷ 97 ∷ []))
cd-Holds = record {
  chars = (refl, omega arith, (refl, omega arith, (refl, omega arith, (refl, omega arith, tt))));
  ends = refl;
  short = omega arith;
}

process_line_input_buffer-IsProcessed_example :
    IsProcessed
      (99 ∷ 100 ∷ [])
      (97 ∷ [])
      cd_line
      no_history
      (process_line_input_buffer cd_line no_history)
process_line_input_buffer-IsProcessed_example =
    process_line_input_buffer-IsProcessed (99 ∷ 100 ∷ []) (97 ∷ []) cd_line no_history cd-Holds refl
      (omega arith) (omega arith, (omega arith, tt))
