-- ===== src/Terminal/Deleting.antt =====
-- The backspace key and the arrow keys of kernel/terminal/terminal.cpp.
use esz_os.Base.{
  ℕ, ◌+◌, ◌-◌, ◌<◌, ◌≤◌, ◌≡◌, ◌≢◌, refl, ◌∙◌, ap, arith, true, false, ◌&&◌, ◌==◌, ltb, leb,
  if◌then◌else◌, List, [], ◌∷◌, ◌++◌, length, length-append, store, sym, subst, Bool-cases, inl,
  inr,
}
use esz_os.Str.Text.{Part, Part-ext, Part-append, Part-left, Part-right}
use esz_os.Terminal.{
  InputLine, put, cursor_move_inline, delete_before, handle_input_buffer_deletion,
}
use esz_os.Terminal.Moves.{shift_left_lem}
use esz_os.Terminal.Editing.{Edits}

delete_buffer :
    (l : InputLine) (q : ℕ)
    → l.cursor_pos ≤ l.input_length
    → 1 ≤ l.cursor_pos
    → (delete_before l).buffer q ≡ (
        if q == l.input_length - 1
        then 0
        else if leb (l.cursor_pos - 1) q && ltb q (l.input_length - 1)
        then l.buffer (q + 1)
        else l.buffer q)
unfolding delete_before store
delete_buffer l q le pos =
    let at = l.cursor_pos - 1 in
    ground (arith, shift_left_lem (l.input_length - 1 - at) at (l.buffer) q)

delete_cells :
    (l : InputLine) (q : ℕ)
    → l.cursor_x ≤ l.amount_of_cells
    → 1 ≤ l.cursor_x
    → q ≢ l.amount_of_cells - 1
    → (delete_before l).cells q ≡ (
        if leb (l.cursor_x - 1) q && ltb q (l.amount_of_cells - 1)
        then l.cells (q + 1)
        else l.cells q)
unfolding delete_before put
delete_cells l q le pos ne =
    let at = l.cursor_x - 1 in
    ground (arith, shift_left_lem (l.amount_of_cells - 1 - at) at (l.cells) q)

delete_shown :
    (l : InputLine) (before after : List ℕ)
    → Edits l before after
    → 1 ≤ l.cursor_pos
    → (i : ℕ) → i < l.input_length - 1
    → (((delete_before l).cells (l.start_x + i)).text ≡ (delete_before l).buffer i)
      × (((delete_before l).cells (l.start_x + i)).interactable ≡ true)
delete_shown l before after h pos i lt =
    let b = delete_buffer l i (omega (arith, h.at_cursor, h.whole)) pos in
    let r =
      delete_cells l (l.start_x + i) (omega (arith, h.at_cursor, h.whole, h.column, h.row))
        (omega (arith, h.column)) (omega (arith, h.row)) in
    let out = delete_before l in
    elim (Bool-cases (leb (l.cursor_pos - 1) i)) [
      | inl behind ↦
          let next : l.start_x + i + 1 ≡ l.start_x + (i + 1) = omega arith in
          let cell : out.cells (l.start_x + i) ≡ l.cells (l.start_x + i + 1) =
            ground (arith, r, h.column, h.row, behind) in
          let char : out.buffer i ≡ l.buffer (i + 1) = ground (arith, b, behind) in
          (
            ap (λ x. x.text) (cell ∙ ap (l.cells) next) ∙ h.shown (i + 1) (omega arith) ∙ sym char,
            ap (λ x. x.interactable) (cell ∙ ap (l.cells) next) ∙ h.marked (i + 1) (omega arith),
          )
      | inr front ↦
          let cell : out.cells (l.start_x + i) ≡ l.cells (l.start_x + i) =
            ground (arith, r, h.column, h.row, front) in
          let char : out.buffer i ≡ l.buffer i = ground (arith, b, front) in
          (
            ap (λ x. x.text) cell ∙ h.shown i (omega arith) ∙ sym char,
            ap (λ x. x.interactable) cell ∙ h.marked i (omega arith),
          )
    ]

delete_before-Edits :
    (l : InputLine) (c : ℕ) (before after : List ℕ)
    → Edits l (before ++ (c ∷ [])) after
    → Edits (delete_before l) before after
unfolding delete_before
delete_before-Edits l c before after h =
    let n = length before in
    let out = delete_before l in
    let len : length (before ++ (c ∷ [])) ≡ n + 1 = length-append before (c ∷ []) in
    let pos : l.cursor_pos ≡ n + 1 = h.at_cursor ∙ len in
    let whole : l.input_length ≡ n + 1 + length after = omega (arith, h.whole, len) in
    let le : l.cursor_pos ≤ l.input_length = omega arith in
    let one : 1 ≤ l.cursor_pos = omega arith in
    let second : Part (l.buffer) (n + 1) after =
      subst (λ x. Part (l.buffer) x after) len (h.second) in
    record {
      first =
          Part-ext (l.buffer) (out.buffer) 0 0 before
            (Part-left (l.buffer) 0 before (c ∷ []) (h.first))
            (λ k lt. ground (arith, delete_buffer l (0 + k) le one, pos, whole));
      second = Part-ext (l.buffer) (out.buffer) (n + 1) n after second (λ k lt.
          let z : n + k + 1 ≡ n + 1 + k = omega arith in
          subst (λ x. out.buffer (n + k) ≡ l.buffer x) z
            (ground (arith, delete_buffer l (n + k) le one, pos, whole)));
      at_cursor = omega (arith, pos);
      whole = omega (arith, whole);
      ends = ground (arith, delete_buffer l (l.input_length - 1) le one);
      column = omega (arith, h.column, pos);
      row = omega (arith, h.row, whole);
      shown = λ i lt. (delete_shown l (before ++ (c ∷ [])) after h one i lt).0;
      marked = λ i lt. (delete_shown l (before ++ (c ∷ [])) after h one i lt).1;
    }

-- The backspace key takes away the character before the cursor, in the buffer and on the screen.
pub handle_input_buffer_deletion-Edits :
    (l : InputLine) (c : ℕ) (before after : List ℕ)
    → Edits l (before ++ (c ∷ [])) after
    → Edits (handle_input_buffer_deletion l) before after
unfolding handle_input_buffer_deletion
handle_input_buffer_deletion-Edits l c before after h =
    let len : length (before ++ (c ∷ [])) ≡ length before + 1 = length-append before (c ∷ []) in
    let n = length before in
    let m : (l.cells (l.start_x + n)).interactable ≡ true =
      h.marked n (omega (arith, h.whole, len)) in
    let e : l.start_x + n ≡ l.cursor_x - 1 = omega (arith, h.column, h.at_cursor, len) in
    let mark : (l.cells (l.cursor_x - 1)).interactable ≡ true =
      ap (λ x. (l.cells x).interactable) (sym e) ∙ m in
    let some_text : (l.input_length == 0) ≡ false = ground (arith, h.whole, len) in
    let some_before : (l.cursor_pos == 0) ≡ false = ground (arith, h.at_cursor, len) in
    let some_column : (l.cursor_x == 0) ≡ false = ground (arith, h.column, h.at_cursor, len) in
    rw (some_text, some_before, some_column, mark) (delete_before-Edits l c before after h)

-- With the cursor at the start of the input, the backspace key and the left arrow key change
-- nothing.
pub start_of_input_lem :
    (l : InputLine) (after : List ℕ)
    → Edits l [] after
    → (handle_input_buffer_deletion l ≡ l) × (cursor_move_inline false l ≡ l)
unfolding handle_input_buffer_deletion cursor_move_inline
start_of_input_lem l after h =
    let z : (l.cursor_pos == 0) ≡ true = ground (arith, h.at_cursor) in
    (ground (arith, z), rw z refl)

-- One character from behind the cursor to before it, if there is one.
unfoldable pub right_of : List ℕ → List ℕ → List ℕ × List ℕ
right_of before [] = (before, [])
right_of before (c ∷ after) = (before ++ (c ∷ []), after)

-- The right arrow key moves the cursor over one character, and stops at the end of the input.
pub cursor_move_right-Edits :
    (l : InputLine) (before after : List ℕ)
    → Edits l before after
    → Edits (cursor_move_inline true l) ((right_of before after).0) ((right_of before after).1)
unfolding cursor_move_inline right_of
cursor_move_right-Edits l before [] h =
    let e : leb (l.input_length) (l.cursor_pos) ≡ true = ground (arith, h.whole, h.at_cursor) in
    rw e h
cursor_move_right-Edits l before (c ∷ after) h =
    let len : length (before ++ (c ∷ [])) ≡ length before + 1 = length-append before (c ∷ []) in
    let (e, ne, rest) = h.second in
    let z : length before ≡ 0 + length before = omega arith in
    let inside : leb (l.input_length) (l.cursor_pos) ≡ false =
      ground (arith, h.whole, h.at_cursor) in
    rw inside record {
      first =
          Part-append (l.buffer) 0 before (c ∷ []) (h.first)
            (subst (λ x. Part (l.buffer) x (c ∷ [])) z (e, ne, tt));
      second = subst (λ x. Part (l.buffer) x after) (sym len) rest;
      at_cursor = omega (arith, h.at_cursor, len);
      whole = omega (arith, h.whole, len);
      ends = h.ends;
      column = omega (arith, h.column);
      row = h.row;
      shown = h.shown;
      marked = h.marked;
    }

-- The left arrow key moves the cursor back over one character.
pub cursor_move_left-Edits :
    (l : InputLine) (c : ℕ) (before after : List ℕ)
    → Edits l (before ++ (c ∷ [])) after
    → Edits (cursor_move_inline false l) before (c ∷ after)
unfolding cursor_move_inline
cursor_move_left-Edits l c before after h =
    let len : length (before ++ (c ∷ [])) ≡ length before + 1 = length-append before (c ∷ []) in
    let (e, ne, _) = Part-right (l.buffer) 0 before (c ∷ []) (h.first) in
    let z : 0 + length before ≡ length before = omega arith in
    let inside : (l.cursor_pos == 0) ≡ false = ground (arith, h.at_cursor, len) in
    rw inside record {
      first = Part-left (l.buffer) 0 before (c ∷ []) (h.first);
      second = (ap (l.buffer) (sym z) ∙ e, ne, subst (λ x. Part (l.buffer) x after) len (h.second));
      at_cursor = omega (arith, h.at_cursor, len);
      whole = omega (arith, h.whole, len);
      ends = h.ends;
      column = omega (arith, h.column, h.at_cursor, len);
      row = h.row;
      shown = h.shown;
      marked = h.marked;
    }
