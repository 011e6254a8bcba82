-- ===== src/Terminal/Editing.antt =====
-- The operations of kernel/terminal/terminal.cpp as an editor: the characters before the cursor
-- and those behind it, in the buffer and on the screen.
use esz_os.Base.{
  ℕ, ◌+◌, ◌-◌, ◌<◌, ◌≤◌, ◌≡◌, ◌≢◌, refl, ◌∙◌, ap, arith, true, ◌&&◌, ◌==◌, ltb, leb, if◌then◌else◌,
  List, [], ◌∷◌, ◌++◌, length, length-append, store, store_self, sym, subst, Bool-cases, inl, inr,
  eq_or_ne,
}
use esz_os.Config.{terminal_buffer_size}
use esz_os.Str.Text.{Part, Part-ext, Part-append}
use esz_os.Terminal.{InputLine, put, reset_line_input, insert_char_at_cursor, color_white}
use esz_os.Terminal.Moves.{shift_right_lem}

-- The line holds `before`, the cursor and `after`, and the screen shows it.
pub record Edits (l : InputLine) (before after : List ℕ) : Type 0 where
  pub first : Part (l.buffer) 0 before
  pub second : Part (l.buffer) (length before) after
  pub at_cursor : l.cursor_pos ≡ length before
  pub whole : l.input_length ≡ length before + length after
  pub ends : l.buffer (l.input_length) ≡ 0
  pub column : l.cursor_x ≡ l.start_x + l.cursor_pos
  pub row : l.amount_of_cells ≡ l.start_x + l.input_length
  pub shown : (i : ℕ) → i < l.input_length → (l.cells (l.start_x + i)).text ≡ l.buffer i
  pub marked : (i : ℕ) → i < l.input_length → (l.cells (l.start_x + i)).interactable ≡ true

-- An emptied line is an empty text, if the screen line ends where the input starts.
pub reset_line_input-Edits :
    (l : InputLine)
    → l.cursor_x ≡ l.start_x
    → l.amount_of_cells ≡ l.start_x
    → Edits (reset_line_input l) [] []
unfolding reset_line_input
reset_line_input-Edits l x n = record {
  first = tt;
  second = tt;
  at_cursor = refl;
  whole = refl;
  ends = store_self (l.buffer) 0 0;
  column = omega (arith, x);
  row = omega (arith, n);
  shown = λ i lt. absurd (omega arith);
  marked = λ i lt. absurd (omega arith);
}

insert_buffer :
    (l : InputLine) (c q : ℕ)
    → l.cursor_pos ≤ l.input_length
    → (insert_char_at_cursor c l).buffer q ≡ (
        if q == l.input_length + 1
        then 0
        else if q == l.cursor_pos
        then c
        else if ltb (l.cursor_pos) q && leb q (l.input_length)
        then l.buffer (q - 1)
        else l.buffer q)
unfolding insert_char_at_cursor store
insert_buffer l c q le =
    ground (arith, shift_right_lem (l.input_length - l.cursor_pos) (l.cursor_pos) (l.buffer) q)

insert_cells :
    (l : InputLine) (c q : ℕ)
    → l.cursor_x ≤ l.amount_of_cells
    → (insert_char_at_cursor c l).cells q ≡ (
        if q == l.cursor_x
        then record { color = color_white; text = c; interactable = true }
        else if ltb (l.cursor_x) q && leb q (l.amount_of_cells)
        then l.cells (q - 1)
        else l.cells q)
unfolding insert_char_at_cursor put
insert_cells l c q le =
    ground (arith, shift_right_lem (l.amount_of_cells - l.cursor_x) (l.cursor_x) (l.cells) q)

insert_shown :
    (l : InputLine) (c : ℕ) (before after : List ℕ)
    → Edits l before after
    → (i : ℕ) → i < l.input_length + 1
    → (((insert_char_at_cursor c l).cells (l.start_x + i)).text
        ≡ (insert_char_at_cursor c l).buffer i)
      × (((insert_char_at_cursor c l).cells (l.start_x + i)).interactable ≡ true)
insert_shown l c before after h i lt =
    let b = insert_buffer l c i (omega (arith, h.at_cursor, h.whole)) in
    let r =
      insert_cells l c (l.start_x + i) (omega (arith, h.at_cursor, h.whole, h.column, h.row)) in
    let out = insert_char_at_cursor c l in
    elim (eq_or_ne i (l.cursor_pos)) [
      | inl here ↦
          let cell : out.cells (l.start_x + i)
              ≡ record { color = color_white; text = c; interactable = true } =
            ground (arith, r, h.column, here) in
          let char : out.buffer i ≡ c = ground (arith, b, h.at_cursor, h.whole) in
          (ap (λ x. x.text) cell ∙ sym char, ap (λ x. x.interactable) cell)
      | inr ne ↦ elim (Bool-cases (ltb (l.cursor_pos) i)) [
        | inl behind ↦
            let back : l.start_x + i - 1 ≡ l.start_x + (i - 1) = ground (arith, behind) in
            let cell : out.cells (l.start_x + i) ≡ l.cells (l.start_x + i - 1) =
              ground (arith, r, h.column, h.row, behind) in
            let char : out.buffer i ≡ l.buffer (i - 1) = ground (arith, b, behind) in
            let inside : i - 1 < l.input_length = ground (arith, behind) in
            (
              ap (λ x. x.text) (cell ∙ ap (l.cells) back) ∙ h.shown (i - 1) inside ∙ sym char,
              ap (λ x. x.interactable) (cell ∙ ap (l.cells) back) ∙ h.marked (i - 1) inside,
            )
        | inr before ↦
            let cell : out.cells (l.start_x + i) ≡ l.cells (l.start_x + i) =
              ground (arith, r, h.column, h.row, before) in
            let char : out.buffer i ≡ l.buffer i =
              ground (arith, b, before, h.at_cursor, h.whole) in
            let inside : i < l.input_length = ground (arith, before, h.at_cursor, h.whole) in
            (
              ap (λ x. x.text) cell ∙ h.shown i inside ∙ sym char,
              ap (λ x. x.interactable) cell ∙ h.marked i inside,
            )
      ]
    ]

insert_char_at_cursor-Edits :
    (l : InputLine) (c : ℕ) (before after : List ℕ)
    → Edits l before after
    → c ≢ 0
    → Edits (insert_char_at_cursor c l) (before ++ (c ∷ [])) after
unfolding insert_char_at_cursor
insert_char_at_cursor-Edits l c before after h ne =
    let n = length before in
    let out = insert_char_at_cursor c l in
    let len : length (before ++ (c ∷ [])) ≡ n + 1 = length-append before (c ∷ []) in
    let le : l.cursor_pos ≤ l.input_length = omega (arith, h.at_cursor, h.whole) in
    let kept : Part (out.buffer) 0 before =
      Part-ext (l.buffer) (out.buffer) 0 0 before (h.first)
        (λ k lt. ground (arith, insert_buffer l c (0 + k) le, h.at_cursor, h.whole)) in
    let at : out.buffer (0 + n) ≡ c =
      ground (arith, insert_buffer l c (0 + n) le, h.at_cursor, h.whole) in
    let moved : Part (out.buffer) (n + 1) after =
      Part-ext (l.buffer) (out.buffer) n (n + 1) after (h.second) (λ k lt.
        let z : n + 1 + k - 1 ≡ n + k = omega arith in
        subst (λ x. out.buffer (n + 1 + k) ≡ l.buffer x) z
          (ground (arith, insert_buffer l c (n + 1 + k) le, h.at_cursor, h.whole))) in
    record {
      first = Part-append (out.buffer) 0 before (c ∷ []) kept (at, ne, tt);
      second = subst (λ x. Part (out.buffer) x after) (sym len) moved;
      at_cursor = omega (arith, h.at_cursor, len);
      whole = omega (arith, h.whole, len);
      ends = ground (arith, insert_buffer l c (l.input_length + 1) le);
      column = omega (arith, h.column);
      row = omega (arith, h.row);
      shown = λ i lt. (insert_shown l c before after h i lt).0;
      marked = λ i lt. (insert_shown l c before after h i lt).1;
    }

-- The room of a line: the buffer with its terminator, and the row of cells.
pub record HasRoom (max_chars n : ℕ) (l : InputLine) : Type 0 where
  pub in_buffer : l.input_length + n < terminal_buffer_size
  pub in_row : l.amount_of_cells + n ≤ max_chars

-- What stays: the prompt in front of the input, and everything behind the ends of the buffer and
-- of the row of cells.
pub record IsBeside (max_chars : ℕ) (l l' : InputLine) : Type 0 where
  pub start : l'.start_x ≡ l.start_x
  pub prompt : (i : ℕ) → i < l.start_x → l'.cells i ≡ l.cells i
  pub behind_buffer : (i : ℕ) → terminal_buffer_size ≤ i → l'.buffer i ≡ l.buffer i
  pub behind_row : (i : ℕ) → max_chars ≤ i → l'.cells i ≡ l.cells i

pub IsBeside-refl : (max_chars : ℕ) (l : InputLine) → IsBeside max_chars l l
IsBeside-refl max_chars l = record {
  start = refl;
  prompt = λ i lt. refl;
  behind_buffer = λ i le. refl;
  behind_row = λ i le. refl;
}

pub IsBeside-trans :
    (max_chars : ℕ) (l1 l2 l3 : InputLine)
    → IsBeside max_chars l1 l2
    → IsBeside max_chars l2 l3
    → IsBeside max_chars l1 l3
IsBeside-trans max_chars l1 l2 l3 a b = record {
  start = b.start ∙ a.start;
  prompt = λ i lt. b.prompt i (omega (arith, a.start, lt)) ∙ a.prompt i lt;
  behind_buffer = λ i le. b.behind_buffer i le ∙ a.behind_buffer i le;
  behind_row = λ i le. b.behind_row i le ∙ a.behind_row i le;
}

insert_start : (l : InputLine) (c : ℕ) → (insert_char_at_cursor c l).start_x ≡ l.start_x
unfolding insert_char_at_cursor
insert_start l c = refl

insert_char_at_cursor-IsBeside :
    (max_chars c : ℕ) (l : InputLine) (before after : List ℕ)
    → Edits l before after
    → HasRoom max_chars 1 l
    → IsBeside max_chars l (insert_char_at_cursor c l)
insert_char_at_cursor-IsBeside max_chars c l before after h room =
    let le : l.cursor_pos ≤ l.input_length = omega (arith, h.at_cursor, h.whole) in
    let le' : l.cursor_x ≤ l.amount_of_cells =
      omega (arith, h.at_cursor, h.whole, h.column, h.row) in
    record {
      start = insert_start l c;
      prompt = λ i lt. ground (arith, insert_cells l c i le', h.column, lt);
      behind_buffer = λ i far. ground (arith, insert_buffer l c i le, room.in_buffer, le, far);
      behind_row = λ i far. ground (arith, insert_cells l c i le', room.in_row, le', far);
    }

-- Inserting a character other than the terminator puts it before the cursor, in the buffer and on
-- the screen, and keeps the characters on both sides and the prompt in front of them. Where the
-- buffer and the row have room for one more, nothing behind their ends is written.
pub insert_char_at_cursor-Edited :
    (max_chars : ℕ) (l : InputLine) (c : ℕ) (before after : List ℕ)
    → Edits l before after
    → c ≢ 0
    → HasRoom max_chars 1 l
    → Edits (insert_char_at_cursor c l) (before ++ (c ∷ [])) after
      × IsBeside max_chars l (insert_char_at_cursor c l)
insert_char_at_cursor-Edited max_chars l c before after h ne room = (
  insert_char_at_cursor-Edits l c before after h ne,
  insert_char_at_cursor-IsBeside max_chars c l before after h room,
)
