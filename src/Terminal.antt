-- ===== src/Terminal.antt =====
-- The input line: kernel/terminal/terminal.cpp, with the line of cells of
-- kernel/rendering/screenBuffer/screenBuffer.h on which it stands. Drawing is left out: a redraw
-- reads the cells, and the code puts the cursor column back behind each one.
pub mod Moves
pub mod Editing
pub mod Deleting
mod Tests
use esz_os.Base.{
  ℕ, zero, suc, ◌+◌, ◌-◌, Bool, true, false, not, ◌||◌, ◌&&◌, ◌==◌, ltb, leb, if◌then◌else◌, Buffer,
  store, u8,
}

abbrev pub color_white : ℕ
color_white = 0xE5E7E9

pub record Cell : Type 0 where
  pub color : ℕ
  pub text : ℕ
  pub interactable : Bool

abbrev pub Cells : Type 0
Cells = ℕ → Cell

unfoldable pub put : Cells → ℕ → Cell → Cells
put cells i cell j = if j == i then cell else cells j

-- The globals of terminal.cpp, the cursor column and the line that the cursor is on.
pub record InputLine : Type 0 where
  pub input_length : ℕ
  pub buffer : Buffer
  pub cursor_pos : ℕ
  pub start_x : ℕ
  pub cursor_x : ℕ
  pub cells : Cells
  pub amount_of_cells : ℕ

unfoldable pub reset_line_input : InputLine → InputLine
reset_line_input l = record {
  input_length = 0;
  buffer = store (l.buffer) 0 0;
  cursor_pos = 0;
  start_x = l.start_x;
  cursor_x = l.cursor_x;
  cells = l.cells;
  amount_of_cells = l.amount_of_cells;
}

-- The loop of `clear_input_on_screen` at cell `i`.
unfoldable pub clear_cells : ℕ → ℕ → Cells → Cells
clear_cells zero i cells = cells
clear_cells (suc left) i cells =
    clear_cells left (i + 1)
      (put cells i record { color = color_white; text = 0; interactable = false })

-- `max_chars` is the width of a line.
unfoldable pub clear_input_on_screen : ℕ → InputLine → InputLine
clear_input_on_screen max_chars l =
    let ends = if ltb max_chars (l.amount_of_cells) then max_chars else l.amount_of_cells in
    record {
      input_length = l.input_length;
      buffer = l.buffer;
      cursor_pos = 0;
      start_x = l.start_x;
      cursor_x = l.start_x;
      cells = clear_cells (ends - l.start_x) (l.start_x) (l.cells);
      amount_of_cells = l.start_x;
    }

-- `for (i = at + n; i > at; i--) a[i] = a[i - 1]`
unfoldable pub shift_right : {A : Type 0} → ℕ → ℕ → (ℕ → A) → ℕ → A
shift_right zero from a = a
shift_right (suc n) from a =
    shift_right n from (λ j. if j == from + suc n then a (from + n) else a j)

-- `for (i = from; i < from + n; i++) a[i] = a[i + 1]`
unfoldable pub shift_left : {A : Type 0} → ℕ → ℕ → (ℕ → A) → ℕ → A
shift_left zero from a = a
shift_left (suc n) from a = shift_left n (from + 1) (λ j. if j == from then a (from + 1) else a j)

-- The buffer has 256 bytes and the row as many cells as a line is wide. The source has no check of
-- them, so that an index behind the end is one of the memory that follows, here as there.
unfoldable pub insert_char_at_cursor : ℕ → InputLine → InputLine
insert_char_at_cursor c l =
    let moved = shift_right (l.input_length - l.cursor_pos) (l.cursor_pos) (l.buffer) in
    let row = shift_right (l.amount_of_cells - l.cursor_x) (l.cursor_x) (l.cells) in
    record {
      input_length = l.input_length + 1;
      buffer = store (store moved (l.cursor_pos) c) (l.input_length + 1) 0;
      cursor_pos = l.cursor_pos + 1;
      start_x = l.start_x;
      cursor_x = l.cursor_x + 1;
      cells = put row (l.cursor_x) record { color = color_white; text = c; interactable = true };
      amount_of_cells = l.amount_of_cells + 1;
    }

-- `keycode` is what `scancode_to_keycode` gives; the source keeps its low byte in a `char`.
unfoldable pub handle_input_buffer_insertion : ℕ → InputLine → InputLine
handle_input_buffer_insertion keycode l =
    let c = u8 keycode in if c == 0 then l else insert_char_at_cursor c l

unfoldable pub cursor_move_inline : Bool → InputLine → InputLine
cursor_move_inline true l = if leb (l.input_length) (l.cursor_pos) then l else record {
  input_length = l.input_length;
  buffer = l.buffer;
  cursor_pos = l.cursor_pos + 1;
  start_x = l.start_x;
  cursor_x = l.cursor_x + 1;
  cells = l.cells;
  amount_of_cells = l.amount_of_cells;
}
cursor_move_inline false l = if l.cursor_pos == 0 then l else record {
  input_length = l.input_length;
  buffer = l.buffer;
  cursor_pos = l.cursor_pos - 1;
  start_x = l.start_x;
  cursor_x = l.cursor_x - 1;
  cells = l.cells;
  amount_of_cells = l.amount_of_cells;
}

-- The cell behind the last one loses its text and its mark, and keeps its color.
unfoldable pub blank_cell : Cell → Cell
blank_cell cell = record { color = cell.color; text = 0; interactable = false }

unfoldable pub delete_before : InputLine → InputLine
delete_before l =
    let at = l.cursor_pos - 1 in
    let moved = shift_left (l.input_length - 1 - at) at (l.buffer) in
    let column = l.cursor_x - 1 in
    let row = shift_left (l.amount_of_cells - 1 - column) column (l.cells) in
    record {
      input_length = l.input_length - 1;
      buffer = store moved (l.input_length - 1) 0;
      cursor_pos = l.cursor_pos - 1;
      start_x = l.start_x;
      cursor_x = l.cursor_x - 1;
      cells = put row (l.amount_of_cells - 1) (blank_cell (row (l.amount_of_cells - 1)));
      amount_of_cells = l.amount_of_cells - 1;
    }

unfoldable pub handle_input_buffer_deletion : InputLine → InputLine
handle_input_buffer_deletion l =
    if ((l.input_length == 0 || l.cursor_pos == 0) || l.cursor_x == 0)
      || not ((l.cells (l.cursor_x - 1)).interactable)
    then l
    else delete_before l

-- The three loops of `replaceCurrentToken`.
unfoldable pub skip_token : ℕ → InputLine → InputLine
unfolding cursor_move_inline
skip_token zero l = l
skip_token (suc fuel) l =
    elim (ltb (l.cursor_pos) (l.input_length) && not (l.buffer (l.cursor_pos) == b' ')) [
      | true ↦ skip_token fuel (cursor_move_inline true l)
      | false ↦ l
    ]

unfoldable pub delete_times : ℕ → InputLine → InputLine
delete_times zero l = l
delete_times (suc n) l = delete_times n (handle_input_buffer_deletion l)

unfoldable pub insert_from : ℕ → ℕ → Buffer → InputLine → InputLine
insert_from zero i token l = l
insert_from (suc left) i token l =
    insert_from left (i + 1) token (insert_char_at_cursor (token i) l)
