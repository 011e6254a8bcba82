-- ===== src/Keyboard/Tests.antt =====
-- Examples for the keyboard.
use esz_os.Base.{◌≡◌, refl, arith, true, false, [], ◌∷◌, ◌++◌}
use esz_os.Keymap.{layout_us}
use esz_os.Terminal.{InputLine}
use esz_os.Terminal.Editing.{Edits}
use esz_os.Keyboard.{KeyboardState, keyboard_handler, type_keys}
use esz_os.Keyboard.Typing.{Types, Typed, type_keys-Typed}
use esz_os.Keyboard.Prefix.{start, key, last_shift, is_open_prefix, Interrupts_lem}

abbrev at_rest : KeyboardState
at_rest = record { shift = false; is_extended_scancode = false }

-- An empty line behind a prompt of 5 cells.
abbrev empty_line : InputLine
empty_line = record {
  input_length = 0;
  buffer = λ i. 0;
  cursor_pos = 0;
  start_x = 5;
  cursor_x = 5;
  cells = λ i. record { color = 0; text = 0; interactable = true };
  amount_of_cells = 5;
}

empty-Edits : Edits empty_line [] []
empty-Edits = record {
  first = tt;
  second = tt;
  at_cursor = refl;
  whole = refl;
  ends = refl;
  column = refl;
  row = refl;
  shown = λ i lt. refl;
  marked = λ i lt. refl;
}

-- The keys 'l' and 's'.
ls-Types : Types layout_us false (0x26 ∷ 0x1F ∷ []) (108 ∷ 115 ∷ [])
unfolding esz_os.Keymap.scancode_to_keycode
ls-Types = (
  omega arith,
  omega arith,
  omega arith,
  omega arith,
  refl,
  omega arith,
  omega arith,
  (omega arith, omega arith, omega arith, omega arith, refl, omega arith, omega arith, tt),
)

type_keys-Typed_example :
    Typed 128 at_rest empty_line
      ([] ++ (108 ∷ 115 ∷ []))
      []
      (type_keys layout_us (0x26 ∷ 0x1F ∷ []) at_rest empty_line)
type_keys-Typed_example =
    type_keys-Typed 128 layout_us (0x26 ∷ 0x1F ∷ []) (108 ∷ 115 ∷ []) at_rest empty_line [] [] refl
      ls-Types empty-Edits (record { in_buffer = omega arith; in_row = omega arith })

-- Shift goes down, and then a prefix comes.
abbrev after_shift : KeyboardState
after_shift = (keyboard_handler layout_us 0x2A at_rest).1

abbrev after_prefix : KeyboardState
after_prefix = (keyboard_handler layout_us 0xE0 after_shift).1

Interrupts_lem_example :
    (after_prefix.shift ≡ last_shift (at_rest.shift) (0xE0 ∷ 0x2A ∷ []))
    × (after_prefix.is_extended_scancode
        ≡ is_open_prefix (at_rest.is_extended_scancode) (0xE0 ∷ 0x2A ∷ []))
Interrupts_lem_example =
    Interrupts_lem layout_us at_rest after_prefix (0xE0 ∷ 0x2A ∷ []) (key (key start 0x2A) 0xE0)
