-- ===== src/Screen.antt =====
-- The text screen: kernel/rendering/screenBuffer/screenBuffer.cpp and the line handling of
-- kernel/rendering/print/print.cpp. The pixels are left out: a glyph is drawn from its cell, and a
-- redraw puts the cursor back. `visible_lines` is MAX_LINES. Cell numbers are taken not to be
-- negative, as they are not after `init_screen_buffer`.
pub mod Bounds
pub mod Reaching
pub mod Scrolling
pub mod Printing
mod Tests
use esz_os.Base.{
  ℕ, zero, suc, ◌+◌, ◌-◌, ◌<◌, ◌≤◌, Bool, true, false, ◌||◌, ◌&&◌, not, ◌==◌, ltb, leb,
  if◌then◌else◌, Buffer,
}
use esz_os.Str.{str_length}
use esz_os.Terminal.{Cell, Cells, put}

pub record Line : Type 0 where
  pub cells : Cells
  pub amount_of_cells : ℕ

abbrev pub Lines : Type 0
Lines = ℕ → Line

unfoldable pub put_line : Lines → ℕ → Line → Lines
put_line lines y line j = if j == y then line else lines j

pub record Screen : Type 0 where
  pub lines : Lines
  pub amount_of_lines : ℕ
  pub visible_lines : ℕ
  pub start_render_line : ℕ
  pub max_stored_lines : ℕ
  pub max_chars : ℕ
  pub cursor_x : ℕ
  pub cursor_y : ℕ
  pub rendered_x : ℕ
  pub rendered_y : ℕ
  pub use_screen_buffer : Bool
  pub is_redrawing : Bool

abbrev pub scroll_history_lines : ℕ
scroll_history_lines = 100

abbrev pub empty_cell : Cell
empty_cell = record { color = 0; text = 0; interactable = false }

-- `init_empty_screen_buffer`, whose allocation succeeds.
unfoldable pub init_empty_screen_buffer : Screen → Screen
init_empty_screen_buffer s = record s {
  lines = λ y. record { cells = λ x. empty_cell; amount_of_cells = 0 };
  amount_of_lines = s.cursor_y;
  start_render_line = 0;
  max_stored_lines = s.visible_lines + scroll_history_lines;
}

unfoldable pub init_screen_buffer : Screen → Screen
unfolding init_empty_screen_buffer
init_screen_buffer s = record (init_empty_screen_buffer s) {
  use_screen_buffer = true;
  rendered_x = s.cursor_x;
  rendered_y = s.cursor_y;
}

-- The guard of all bookkeeping: the buffer is in use and this is no redraw.
abbrev pub is_kept : Screen → Bool
is_kept s = s.use_screen_buffer && not (s.is_redrawing)

unfoldable pub set_cell : Line → ℕ → Cell → Line
set_cell line x cell = record {
  cells = put (line.cells) x cell;
  amount_of_cells = if ltb (line.amount_of_cells) (x + 1) then x + 1 else line.amount_of_cells;
}

-- The first half of `draw_char`, which keeps the cell.
unfoldable pub draw_char : ℕ → ℕ → Bool → Screen → Screen
unfolding set_cell put_line
draw_char c color interactable s =
    if is_kept s
    then record s {
      lines = put_line (s.lines) (s.cursor_y) (
          set_cell (s.lines (s.cursor_y)) (s.cursor_x)
            record { color = color; text = c; interactable = interactable });
    }
    else s

unfoldable pub update_cursor_render : Screen → Screen
update_cursor_render s =
    if is_kept s then record s { rendered_x = s.cursor_x; rendered_y = s.cursor_y } else s

-- The cells of one line copied over another: what stands behind them stays.
unfoldable pub copy_cells : ℕ → ℕ → Cells → Cells → Cells
copy_cells zero cell from to = to
copy_cells (suc left) cell from to = copy_cells left (cell + 1) from (put to cell (from cell))

unfoldable pub copy_line : Line → Line → Line
unfolding copy_cells
copy_line from to = record {
  cells = copy_cells (from.amount_of_cells) 0 (from.cells) (to.cells);
  amount_of_cells = from.amount_of_cells;
}

-- The loop that moves every stored line up by one, at line `y`.
unfoldable pub move_lines_up : ℕ → ℕ → Lines → Lines
unfolding copy_line put_line
move_lines_up zero y lines = lines
move_lines_up (suc left) y lines =
    move_lines_up left (y + 1) (put_line lines y (copy_line (lines (y + 1)) (lines y)))

unfoldable pub drop_oldest_line : Screen → Screen
unfolding move_lines_up put_line
drop_oldest_line s =
    let moved = move_lines_up (s.max_stored_lines - 1) 0 (s.lines) in
    let y = s.cursor_y - 1 in
    record s {
      lines = put_line moved y record { cells = (moved y).cells; amount_of_cells = 0 };
      amount_of_lines = s.amount_of_lines - 1;
      start_render_line = s.start_render_line - 1;
      cursor_y = y;
    }

-- The part of `redraw` that stays: the cursor counts as drawn where it is.
unfoldable pub shift_view : Screen → Screen
shift_view s =
    if leb (s.start_render_line + s.visible_lines) (s.cursor_y)
    then record s {
      start_render_line = s.start_render_line + 1;
      rendered_x = s.cursor_x;
      rendered_y = s.cursor_y;
    }
    else s

unfoldable pub handle_scroll : Screen → Screen
unfolding drop_oldest_line shift_view update_cursor_render
handle_scroll s =
    let kept = if leb (s.max_stored_lines) (s.cursor_y) then drop_oldest_line s else s in
    if is_kept s then update_cursor_render (shift_view kept) else s

unfoldable pub newline : Screen → Screen
unfolding handle_scroll
newline s =
    let lines = if is_kept s then s.amount_of_lines + 1 else s.amount_of_lines in
    handle_scroll (record s { amount_of_lines = lines; cursor_x = 0; cursor_y = s.cursor_y + 1 })

unfoldable pub handle_automatic_newline : Screen → Screen
unfolding newline
handle_automatic_newline s = if leb (s.max_chars) (s.cursor_x) then newline s else s

unfoldable pub advance_cursor : Screen → Screen
advance_cursor s = record s { cursor_x = s.cursor_x + 1 }

unfoldable pub print_char : ℕ → ℕ → Bool → Screen → Screen
unfolding draw_char advance_cursor update_cursor_render handle_automatic_newline
print_char c color interactable s =
    handle_automatic_newline
      (update_cursor_render (advance_cursor (draw_char c color interactable s)))

-- The loop of `print_chars` at character `i`: carriage returns are left out, line feeds obeyed.
unfoldable pub print_from : ℕ → ℕ → Buffer → ℕ → Bool → Screen → Screen
unfolding print_char newline
print_from zero i text color interactable s = s
print_from (suc left) i text color interactable s = elim (text i == 13) [
  | true ↦ print_from left (i + 1) text color interactable s
  | false ↦ elim (text i == 10) [
    | true ↦ print_from left (i + 1) text color interactable (newline s)
    | false ↦
        print_from left (i + 1) text color interactable (print_char (text i) color interactable s)
  ]
]

unfoldable pub print_chars : Buffer → ℕ → Bool → Screen → Screen
print_chars text color interactable s = print_from (str_length text) 0 text color interactable s

-- `print`: the text and a new line.
unfoldable pub print : Buffer → ℕ → Screen → Screen
unfolding print_chars newline
print text color s = newline (print_chars text color false s)
