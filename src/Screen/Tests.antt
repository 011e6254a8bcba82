-- ===== src/Screen/Tests.antt =====
-- Examples for the text screen.
use esz_os.Base.{◌+◌, refl, arith, false, ◌==◌, if◌then◌else◌, leb, [], ◌∷◌, Buffer}
use esz_os.Str.Text.{Holds}
use esz_os.Screen.{Screen, empty_cell, init_screen_buffer, newline, print_chars}
use esz_os.Screen.Bounds.{IsReady, init_screen_buffer-IsReady}
use esz_os.Screen.Scrolling.{IsSame, newline-IsSame}
use esz_os.Screen.Printing.{HasPrinted, print_chars-HasPrinted}

-- Three lines of five cells.
abbrev small_screen : Screen
small_screen = record {
  lines = λ y. record { cells = λ x. empty_cell; amount_of_cells = 0 };
  amount_of_lines = 0;
  visible_lines = 3;
  start_render_line = 0;
  max_stored_lines = 0;
  max_chars = 5;
  cursor_x = 0;
  cursor_y = 0;
  rendered_x = 0;
  rendered_y = 0;
  use_screen_buffer = false;
  is_redrawing = false;
}

small-IsReady : IsReady (init_screen_buffer small_screen)
small-IsReady = init_screen_buffer-IsReady small_screen refl (omega arith) (omega arith)

newline-IsSame_example : IsSame ((newline (init_screen_buffer small_screen)).lines 0) (
    if leb
      ((init_screen_buffer small_screen).max_stored_lines)
      ((init_screen_buffer small_screen).cursor_y + 1)
    then (init_screen_buffer small_screen).lines (0 + 1)
    else (init_screen_buffer small_screen).lines 0)
unfolding init_screen_buffer
newline-IsSame_example =
    newline-IsSame (init_screen_buffer small_screen) 0 small-IsReady (omega arith)

-- "ls"
abbrev ls_text : Buffer
ls_text i = if i == 0 then 108 else if i == 1 then 115 else 0

ls-Holds : Holds ls_text (108 ∷ 115 ∷ [])
ls-Holds = record {
  chars = (refl, omega arith, (refl, omega arith, tt));
  ends = refl;
  short = omega arith;
}

print_chars-HasPrinted_example :
    HasPrinted
      (init_screen_buffer small_screen)
      (108 ∷ 115 ∷ [])
      (print_chars ls_text 7 false (init_screen_buffer small_screen))
unfolding init_screen_buffer
print_chars-HasPrinted_example =
    print_chars-HasPrinted ls_text 7 false (init_screen_buffer small_screen) (108 ∷ 115 ∷ [])
      small-IsReady ls-Holds (omega arith, omega arith, (omega arith, omega arith, tt))
      (omega arith)
