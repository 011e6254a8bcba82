-- ===== src/Screen/Scrolling.antt =====
-- What scrolling does to the stored lines: kernel/rendering/print/print.cpp.
use esz_os.Base.{
  ℕ, zero, suc, ◌+◌, ◌-◌, ◌<◌, ◌≤◌, ◌≡◌, ◌≢◌, refl, ◌∙◌, ap, arith, Bool, true, false, ◌&&◌, ◌==◌,
  ltb, leb, if◌then◌else◌, Bool-cases, subst, sym, eq_or_ne, inl, inr,
}
use esz_os.Terminal.{Cells, put}
use esz_os.Screen.{
  Line, Lines, Screen, put_line, copy_cells, copy_line, move_lines_up, drop_oldest_line, newline,
  handle_scroll, is_kept, shift_view, update_cursor_render,
}
use esz_os.Screen.Bounds.{IsReady}

-- Two lines show the same: as many cells, and the same cells up to there.
pub record IsSame (a b : Line) : Type 0 where
  pub as_many : a.amount_of_cells ≡ b.amount_of_cells
  pub same_cells : (x : ℕ) → x < b.amount_of_cells → a.cells x ≡ b.cells x

copy_cells_lem :
    (left cell : ℕ) (from to : Cells) (x : ℕ)
    → copy_cells left cell from to x ≡ (if leb cell x && ltb x (cell + left) then from x else to x)
unfolding copy_cells put
copy_cells_lem zero cell from to x = ground arith
copy_cells_lem (suc left) cell from to x =
    let next = copy_cells_lem left (cell + 1) from (put to cell (from cell)) x in
    elim (eq_or_ne x cell) [
      | inl e ↦ ground (arith, next, ap from e)
      | inr ne ↦ ground (arith, next)
    ]

copy_line-IsSame : (from to : Line) → IsSame (copy_line from to) from
unfolding copy_line
copy_line-IsSame from to = record {
  as_many = refl;
  same_cells =
      λ x lt. ground (arith, copy_cells_lem (from.amount_of_cells) 0 (from.cells) (to.cells) x);
}

pub put_line_self : (lines : Lines) (y : ℕ) (l : Line) → put_line lines y l y ≡ l
unfolding put_line
put_line_self lines y l = let z : (y == y) ≡ true = ground arith in rw z refl

put_line_ne : (lines : Lines) (y : ℕ) (l : Line) (j : ℕ) → j ≢ y → put_line lines y l j ≡ lines j
unfolding put_line
put_line_ne lines y l j ne = let z : (j == y) ≡ false = ground (arith, ne) in rw z refl

move_lines_up_before :
    (left y : ℕ) (lines : Lines) (j : ℕ) → j < y → move_lines_up left y lines j ≡ lines j
unfolding move_lines_up
move_lines_up_before zero y lines j lt = refl
move_lines_up_before (suc left) y lines j lt =
    move_lines_up_before left (y + 1) (put_line lines y (copy_line (lines (y + 1)) (lines y))) j
      (omega arith)
    ∙ put_line_ne lines y (copy_line (lines (y + 1)) (lines y)) j (omega arith)

move_lines_up-IsSame :
    (left y : ℕ) (lines : Lines) (j : ℕ)
    → y ≤ j
    → j < y + left
    → IsSame (move_lines_up left y lines j) (lines (j + 1))
unfolding move_lines_up
move_lines_up-IsSame zero y lines j le lt = absurd (omega arith)
move_lines_up-IsSame (suc left) y lines j le lt =
    let moved = put_line lines y (copy_line (lines (y + 1)) (lines y)) in
    elim (eq_or_ne j y) [
      | inl e ↦
          let here : move_lines_up left (y + 1) moved j ≡ copy_line (lines (y + 1)) (lines y) =
            move_lines_up_before left (y + 1) moved j (omega arith)
            ∙ ap moved e
            ∙ put_line_self lines y (copy_line (lines (y + 1)) (lines y)) in
          let same = copy_line-IsSame (lines (y + 1)) (lines y) in
          subst (λ l. IsSame l (lines (j + 1))) (sym here)
            (subst (λ k. IsSame (copy_line (lines (y + 1)) (lines y)) (lines (k + 1))) (sym e) same)
      | inr ne ↦
          let later = move_lines_up-IsSame left (y + 1) moved j (omega arith) (omega arith) in
          let kept =
            put_line_ne lines y (copy_line (lines (y + 1)) (lines y)) (j + 1) (omega arith) in
          subst (IsSame (move_lines_up left (y + 1) moved j)) kept later
    ]

view_lines : (s : Screen) → (update_cursor_render (shift_view s)).lines ≡ s.lines
unfolding update_cursor_render shift_view
view_lines s = elim (Bool-cases (is_kept (shift_view s))) [
  | inl kept ↦ ap (λ b. (choose_kept b).lines) kept ∙ shifted_lines
  | inr other ↦ ap (λ b. (choose_kept b).lines) other ∙ shifted_lines
]
  where
    choose_kept : Bool → Screen
    choose_kept b =
        if b
        then record (shift_view s) {
          rendered_x = (shift_view s).cursor_x;
          rendered_y = (shift_view s).cursor_y;
        }
        else shift_view s

    choose_far : Bool → Screen
    choose_far b =
        if b
        then record s {
          start_render_line = s.start_render_line + 1;
          rendered_x = s.cursor_x;
          rendered_y = s.cursor_y;
        }
        else s

    shifted_lines : (shift_view s).lines ≡ s.lines
    shifted_lines = elim (Bool-cases (leb (s.start_render_line + s.visible_lines) (s.cursor_y))) [
      | inl far ↦ ap (λ b. (choose_far b).lines) far
      | inr near ↦ ap (λ b. (choose_far b).lines) near
    ]

IsSame-refl : (l : Line) → IsSame l l
IsSame-refl l = record { as_many = refl; same_cells = λ x lt. refl }

dropped-IsSame :
    (s : Screen) (j : ℕ)
    → j < s.max_stored_lines - 1
    → j < s.cursor_y - 1
    → IsSame ((drop_oldest_line s).lines j) (s.lines (j + 1))
unfolding drop_oldest_line
dropped-IsSame s j lt below =
    let moved = move_lines_up (s.max_stored_lines - 1) 0 (s.lines) in
    let y = s.cursor_y - 1 in
    let kept =
      put_line_ne moved y (record { cells = (moved y).cells; amount_of_cells = 0 }) j
        (omega arith) in
    subst (λ l. IsSame l (s.lines (j + 1))) (sym kept)
      (move_lines_up-IsSame (s.max_stored_lines - 1) 0 (s.lines) j (omega arith) (omega arith))

-- A new line at the end of the stored lines moves each of them up by one, with all its cells, and
-- so loses only the oldest; before the end it changes none of them.
pub newline-IsSame :
    (s : Screen) (j : ℕ)
    → IsReady s
    → j < s.max_stored_lines - 1
    → IsSame
        ((newline s).lines j)
        (if leb (s.max_stored_lines) (s.cursor_y + 1) then s.lines (j + 1) else s.lines j)
unfolding newline handle_scroll
newline-IsSame s j r lt = elim (Bool-cases (leb (s.max_stored_lines) (s.cursor_y + 1))) [
  | inl full ↦
      subst (λ b. IsSame ((newline s).lines j) (if b then s.lines (j + 1) else s.lines j))
        (sym full)
        (subst (λ ls. IsSame (ls j) (s.lines (j + 1))) (sym (by_flags true full))
          (dropped-IsSame below j lt (ground (arith, full, r.row))))
  | inr room ↦
      subst (λ b. IsSame ((newline s).lines j) (if b then s.lines (j + 1) else s.lines j))
        (sym room)
        (subst (λ ls. IsSame (ls j) (s.lines j)) (sym (by_flags false room))
          (IsSame-refl (s.lines j)))
]
  where
    kept : is_kept s ≡ true
    kept = ground (arith, r.steady.0, r.steady.1)

    below : Screen
    below = record s {
      amount_of_lines = if is_kept s then s.amount_of_lines + 1 else s.amount_of_lines;
      cursor_x = 0;
      cursor_y = s.cursor_y + 1;
    }

    by_flags :
        (full : Bool)
        → leb (s.max_stored_lines) (s.cursor_y + 1) ≡ full
        → (newline s).lines ≡ (if full then drop_oldest_line below else below).lines
    by_flags full e =
        ap
          (λ b.
            (if b
              then update_cursor_render (
                  shift_view (
                    if leb (s.max_stored_lines) (s.cursor_y + 1)
                    then drop_oldest_line below
                    else below))
              else below).lines)
          kept
        ∙ view_lines
            (if leb (s.max_stored_lines) (s.cursor_y + 1) then drop_oldest_line below else below)
        ∙ ap (λ b. (if b then drop_oldest_line below else below).lines) e
