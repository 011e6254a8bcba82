-- ===== src/Screen/Reaching.antt =====
-- Every sequence of characters and new lines keeps the cursor inside the screen buffer:
-- kernel/rendering/print/print.cpp.
use esz_os.Base.{
  ℕ, ◌+◌, ◌<◌, ◌≤◌, ◌≡◌, refl, ◌∙◌, ap, arith, Bool, true, ◌==◌, leb, if◌then◌else◌, Bool-cases,
  subst, sym, inl, inr,
}
use esz_os.Screen.{
  put_line, Screen, is_kept, set_cell, draw_char, update_cursor_render, newline,
  handle_automatic_newline, advance_cursor, print_char,
}
use esz_os.Screen.Bounds.{IsReady-kept, Steady, IsReady, handle_scroll-IsReady}

-- The screen after a character, before the line is broken: the column may be one too far.
record IsWritten (s : Screen) : Type 0 where
  steady : Steady s
  column : s.cursor_x ≤ s.max_chars
  row : s.cursor_y < s.max_stored_lines
  below_start : s.start_render_line ≤ s.cursor_y
  in_view : s.cursor_y < s.start_render_line + s.visible_lines
  view : s.start_render_line + s.visible_lines ≤ s.max_stored_lines
  narrow : (y : ℕ) → (s.lines y).amount_of_cells ≤ s.max_chars

written-IsReady : (s : Screen) → IsWritten s → IsReady (handle_automatic_newline s)
unfolding handle_automatic_newline newline
written-IsReady s w =
    let lines = if is_kept s then s.amount_of_lines + 1 else s.amount_of_lines in
    elim (Bool-cases (leb (s.max_chars) (s.cursor_x))) [
      | inl full ↦ subst IsReady (sym (ap (λ b. if b then newline s else s) full)) (
          handle_scroll-IsReady
            (record s { amount_of_lines = lines; cursor_x = 0; cursor_y = s.cursor_y + 1 })
            record {
              steady = w.steady;
              column = refl;
              row = omega (arith, w.row);
              below_start = omega (arith, w.below_start);
              in_view = omega (arith, w.in_view);
              view = w.view;
              narrow = w.narrow;
            })
      | inr room ↦ subst IsReady (sym (ap (λ b. if b then newline s else s) room)) record {
        steady = w.steady;
        column = ground (arith, room);
        row = w.row;
        below_start = w.below_start;
        in_view = w.in_view;
        view = w.view;
        narrow = w.narrow;
      }
    ]

-- What a character leaves behind before the line is broken.
abbrev pub after_char : ℕ → ℕ → Bool → Screen → Screen
after_char c color interactable s = record s {
  lines = put_line (s.lines) (s.cursor_y) (
      set_cell (s.lines (s.cursor_y)) (s.cursor_x)
        record { color = color; text = c; interactable = interactable });
  cursor_x = s.cursor_x + 1;
  rendered_x = s.cursor_x + 1;
  rendered_y = s.cursor_y;
}

pub print_char_lem :
    (c color : ℕ) (interactable : Bool) (s : Screen)
    → IsReady s
    → print_char c color interactable s
      ≡ handle_automatic_newline (after_char c color interactable s)
unfolding print_char draw_char advance_cursor update_cursor_render
print_char_lem c color interactable s r =
    let kept : is_kept s ≡ true = IsReady-kept s r in
    ap
      (λ b.
        handle_automatic_newline (update_cursor_render (advance_cursor (if b then drawn else s))))
      kept
    ∙ ap
        (λ b.
          handle_automatic_newline
            (if b then after_char c color interactable s else advance_cursor drawn))
        kept
  where
    drawn : Screen
    drawn = record s {
      lines = put_line (s.lines) (s.cursor_y) (
          set_cell (s.lines (s.cursor_y)) (s.cursor_x)
            record { color = color; text = c; interactable = interactable });
    }

pub print_char-IsReady :
    (c color : ℕ) (interactable : Bool) (s : Screen)
    → IsReady s
    → IsReady (print_char c color interactable s)
unfolding set_cell put_line
print_char-IsReady c color interactable s r =
    subst IsReady (sym (print_char_lem c color interactable s r)) (
      written-IsReady (after_char c color interactable s) record {
        steady = r.steady;
        column = omega (arith, r.column);
        row = r.row;
        below_start = r.below_start;
        in_view = r.in_view;
        view = r.view;
        narrow = λ j. elim (Bool-cases (j == s.cursor_y)) [
          | inl here ↦ rw here (ground (arith, r.narrow (s.cursor_y), r.column))
          | inr away ↦ rw away (r.narrow j)
        ];
      })

-- The steps of a screen: a character, or a new line.
pub data Prints : Screen → Screen → Type 0 where
  char :
      (c color : ℕ) (interactable : Bool) (s : Screen)
      → Prints s (print_char c color interactable s)
  line : (s : Screen) → Prints s (newline s)

pub data Reach (s : Screen) : Screen → Type 0 where
  here : Reach s s
  next : {t u : Screen} → Reach s t → Prints t u → Reach s u
