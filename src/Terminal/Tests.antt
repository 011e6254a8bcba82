-- ===== src/Terminal/Tests.antt =====
-- Examples for the input line.
use esz_os.Base.{ℕ, ◌+◌, ◌≡◌, ◌++◌, refl, arith, true, ◌==◌, if◌then◌else◌, [], ◌∷◌, Buffer}
use esz_os.Terminal.{InputLine, Cells, insert_char_at_cursor, handle_input_buffer_deletion}
use esz_os.Terminal.Editing.{Edits, HasRoom, IsBeside, insert_char_at_cursor-Edited}
use esz_os.Terminal.Deleting.{handle_input_buffer_deletion-Edits}

-- "ab" behind a prompt of 5 cells, with the cursor between the two.
abbrev ab_text : Buffer
ab_text i = if i == 0 then 97 else if i == 1 then 98 else 0

abbrev ab_cells : Cells
ab_cells i = record {
  color = 0;
  text = if i == 5 then 97 else if i == 6 then 98 else 0;
  interactable = true;
}

abbrev ab_line : InputLine
ab_line = record {
  input_length = 2;
  buffer = ab_text;
  cursor_pos = 1;
  start_x = 5;
  cursor_x = 6;
  cells = ab_cells;
  amount_of_cells = 7;
}

ab-shown : (i : ℕ) → (ab_cells (5 + i)).text ≡ ab_text i
ab-shown i = ground arith

ab-Edits : Edits ab_line ([] ++ (97 ∷ [])) (98 ∷ [])
ab-Edits = record {
  first = (refl, omega arith, tt);
  second = (refl, omega arith, tt);
  at_cursor = refl;
  whole = refl;
  ends = refl;
  column = refl;
  row = refl;
  shown = λ i lt. ab-shown i;
  marked = λ i lt. refl;
}

ab-HasRoom : HasRoom 128 1 ab_line
ab-HasRoom = record { in_buffer = omega arith; in_row = omega arith }

insert_char_at_cursor-Edited_example :
    Edits (insert_char_at_cursor 99 ab_line) ((97 ∷ []) ++ (99 ∷ [])) (98 ∷ [])
    × IsBeside 128 ab_line (insert_char_at_cursor 99 ab_line)
insert_char_at_cursor-Edited_example =
    insert_char_at_cursor-Edited 128 ab_line 99 (97 ∷ []) (98 ∷ []) ab-Edits (omega arith)
      ab-HasRoom

handle_input_buffer_deletion-Edits_example :
    Edits (handle_input_buffer_deletion ab_line) [] (98 ∷ [])
handle_input_buffer_deletion-Edits_example =
    handle_input_buffer_deletion-Edits ab_line 97 [] (98 ∷ []) ab-Edits
