-- ===== src/Screen/Bounds.antt =====
-- The cursor stays inside the screen buffer, and inside the part of it that is shown:
-- kernel/rendering/print/print.cpp.
use esz_os.Base.{
  ℕ, zero, suc, ◌+◌, ◌-◌, ◌<◌, ◌≤◌, ◌≡◌, refl, ◌∙◌, ap, arith, Bool, true, false, ◌==◌, leb,
  if◌then◌else◌, Bool-cases, subst, sym, inl, inr,
}
use esz_os.Screen.{
  Lines, put_line, Screen, is_kept, update_cursor_render, move_lines_up, copy_line,
  drop_oldest_line, shift_view, handle_scroll, newline, init_screen_buffer,
  init_empty_screen_buffer,
}

-- What no operation changes: the buffer is in use, there is no redraw, and there is room.
abbrev pub Steady : Screen → Type 0
Steady s =
    (s.use_screen_buffer ≡ true)
    × (s.is_redrawing ≡ false)
    × (0 < s.max_chars)
    × (0 < s.visible_lines)

-- The buffer is in use, the cursor is inside it and in view, and no line is too long.
pub record IsReady (s : Screen) : Type 0 where
  pub steady : Steady s
  pub column : s.cursor_x < s.max_chars
  pub row : s.cursor_y < s.max_stored_lines
  pub below_start : s.start_render_line ≤ s.cursor_y
  pub in_view : s.cursor_y < s.start_render_line + s.visible_lines
  pub view : s.start_render_line + s.visible_lines ≤ s.max_stored_lines
  pub narrow : (y : ℕ) → (s.lines y).amount_of_cells ≤ s.max_chars

pub init_screen_buffer-IsReady :
    (s : Screen)
    → s.is_redrawing ≡ false
    → s.cursor_x < s.max_chars
    → s.cursor_y < s.visible_lines
    → IsReady (init_screen_buffer s)
unfolding init_screen_buffer init_empty_screen_buffer
init_screen_buffer-IsReady s r x y = record {
  steady = (refl, r, omega arith, omega arith);
  column = x;
  row = omega arith;
  below_start = omega arith;
  in_view = omega arith;
  view = omega arith;
  narrow = λ j. omega arith;
}

move_lines_up_narrow :
    (left y : ℕ) (lines : Lines) (n : ℕ)
    → ((j : ℕ) → (lines j).amount_of_cells ≤ n)
    → (j : ℕ) → (move_lines_up left y lines j).amount_of_cells ≤ n
unfolding move_lines_up copy_line put_line
move_lines_up_narrow zero y lines n all j = all j
move_lines_up_narrow (suc left) y lines n all j =
    move_lines_up_narrow left (y + 1) (put_line lines y (copy_line (lines (y + 1)) (lines y))) n
      (λ i. elim (Bool-cases (i == y)) [
        | inl here ↦ rw here (all (y + 1))
        | inr away ↦ rw away (all i)
      ])
      j

-- The screen after the cursor has gone to the start of the next line, before scrolling.
pub record IsBelow (s : Screen) : Type 0 where
  pub steady : Steady s
  pub column : s.cursor_x ≡ 0
  pub row : s.cursor_y ≤ s.max_stored_lines
  pub below_start : s.start_render_line < s.cursor_y
  pub in_view : s.cursor_y ≤ s.start_render_line + s.visible_lines
  pub view : s.start_render_line + s.visible_lines ≤ s.max_stored_lines
  pub narrow : (y : ℕ) → (s.lines y).amount_of_cells ≤ s.max_chars

-- What the view needs of the screen to be right after at most one shift.
record IsClose (s : Screen) : Type 0 where
  steady : Steady s
  column : s.cursor_x ≡ 0
  row : s.cursor_y < s.max_stored_lines
  below_start : s.start_render_line ≤ s.cursor_y
  in_view : s.cursor_y ≤ s.start_render_line + s.visible_lines
  view : s.start_render_line + s.visible_lines ≤ s.max_stored_lines
  narrow : (y : ℕ) → (s.lines y).amount_of_cells ≤ s.max_chars

drop-IsClose :
    (s : Screen) → IsBelow s → s.cursor_y ≡ s.max_stored_lines → IsClose (drop_oldest_line s)
unfolding drop_oldest_line put_line
drop-IsClose s b full = record {
  steady = b.steady;
  column = b.column;
  row = omega (arith, b.below_start);
  below_start = omega (arith, b.below_start);
  in_view = omega (arith, b.in_view, b.view);
  view = omega (arith, b.view);
  narrow = λ j. elim (Bool-cases (j == s.cursor_y - 1)) [
    | inl here ↦ rw here (omega arith)
    | inr away ↦
        rw away
          (move_lines_up_narrow (s.max_stored_lines - 1) 0 (s.lines) (s.max_chars) (b.narrow) j)
  ];
}

abbrev shifted : Screen → Screen
shifted s = record s {
  start_render_line = s.start_render_line + 1;
  rendered_x = s.cursor_x;
  rendered_y = s.cursor_y;
}

shift_view-IsReady : (s : Screen) → IsClose s → IsReady (shift_view s)
unfolding shift_view
shift_view-IsReady s c =
    elim (Bool-cases (leb (s.start_render_line + s.visible_lines) (s.cursor_y))) [
      | inl far ↦ subst IsReady (sym (ap (λ b. if b then shifted s else s) far)) record {
        steady = c.steady;
        column = omega (arith, c.column, c.steady.2);
        row = c.row;
        below_start = ground (arith, far, c.steady.3);
        in_view = omega (arith, c.in_view, c.steady.3);
        view = ground (arith, far, c.row);
        narrow = c.narrow;
      }
      | inr near ↦ subst IsReady (sym (ap (λ b. if b then shifted s else s) near)) record {
        steady = c.steady;
        column = omega (arith, c.column, c.steady.2);
        row = c.row;
        below_start = c.below_start;
        in_view = ground (arith, near);
        view = c.view;
        narrow = c.narrow;
      }
    ]

pub IsReady-kept : (s : Screen) → IsReady s → is_kept s ≡ true
IsReady-kept s r = ground (arith, r.steady.0, r.steady.1)

pub update_cursor_render-IsReady : (s : Screen) → IsReady s → IsReady (update_cursor_render s)
unfolding update_cursor_render
update_cursor_render-IsReady s r =
    subst IsReady
      (sym (
        ap (λ b. if b then record s { rendered_x = s.cursor_x; rendered_y = s.cursor_y } else s)
          (IsReady-kept s r)))
      record {
        steady = r.steady;
        column = r.column;
        row = r.row;
        below_start = r.below_start;
        in_view = r.in_view;
        view = r.view;
        narrow = r.narrow;
      }

kept_view-IsReady : (s : Screen) → IsClose s → IsReady (update_cursor_render (shift_view s))
kept_view-IsReady s c = update_cursor_render-IsReady (shift_view s) (shift_view-IsReady s c)

pub handle_scroll-IsReady : (s : Screen) → IsBelow s → IsReady (handle_scroll s)
unfolding handle_scroll
handle_scroll-IsReady s b =
    let kept : is_kept s ≡ true = ground (arith, b.steady.0, b.steady.1) in
    elim (Bool-cases (leb (s.max_stored_lines) (s.cursor_y))) [
      | inl full ↦
          let e : s.cursor_y ≡ s.max_stored_lines = ground (arith, full, b.row) in
          subst IsReady (sym (by_flags true true full kept))
            (kept_view-IsReady (drop_oldest_line s) (drop-IsClose s b e))
      | inr room ↦ subst IsReady (sym (by_flags false true room kept)) (
          kept_view-IsReady s record {
            steady = b.steady;
            column = b.column;
            row = ground (arith, room);
            below_start = omega (arith, b.below_start);
            in_view = b.in_view;
            view = b.view;
            narrow = b.narrow;
          })
    ]
  where
    by_flags :
        (full kept : Bool)
        → leb (s.max_stored_lines) (s.cursor_y) ≡ full
        → is_kept s ≡ kept
        → handle_scroll s ≡ (
            if kept
            then update_cursor_render (shift_view (if full then drop_oldest_line s else s))
            else s)
    by_flags full kept e f =
        ap
          (λ b.
            if is_kept s
            then update_cursor_render (shift_view (if b then drop_oldest_line s else s))
            else s)
          e
        ∙ ap
            (λ b.
              if b
              then update_cursor_render (shift_view (if full then drop_oldest_line s else s))
              else s)
            f

pub newline-IsReady : (s : Screen) → IsReady s → IsReady (newline s)
unfolding newline
newline-IsReady s r =
    let lines = if is_kept s then s.amount_of_lines + 1 else s.amount_of_lines in
    handle_scroll-IsReady
      (record s { amount_of_lines = lines; cursor_x = 0; cursor_y = s.cursor_y + 1 })
      record {
        steady = r.steady;
        column = refl;
        row = omega (arith, r.row);
        below_start = omega (arith, r.below_start);
        in_view = omega (arith, r.in_view);
        view = r.view;
        narrow = r.narrow;
      }
