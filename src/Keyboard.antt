-- ===== src/Keyboard.antt =====
-- The keyboard interrupt of kernel/io/keyboard/keyboard.cpp and the dispatch of `terminal_on_key`
-- in kernel/terminal/terminal.cpp, with the key tables between them. Reading the scancode from its
-- port and the end-of-interrupt message are not part of the state.
pub mod Typing
pub mod Prefix
mod Tests
use esz_os.Base.{
  ℕ, ◌<◌, ◌≤◌, Bool, true, false, ◌||◌, ◌&&◌, ◌==◌, ltb, leb, if◌then◌else◌, List, [], ◌∷◌, Option,
  none, some,
}
use esz_os.Keymap.{KeyboardLayout, scancode_to_keycode, key_enter, key_backspace, key_tab}
use esz_os.Terminal.{
  InputLine, cursor_move_inline, handle_input_buffer_deletion, handle_input_buffer_insertion,
}

pub record KeyboardState : Type 0 where
  pub shift : Bool
  pub is_extended_scancode : Bool

-- What a key makes the terminal do.
pub data Action : Type 0 where
  nothing arrow_up arrow_down arrow_left arrow_right enter backspace tab : Action
  insertion : ℕ → Action

-- The switch on an extended scancode.
unfoldable pub extended_action : ℕ → Action
extended_action scancode =
    if scancode == 0x48
    then arrow_up
    else if scancode == 0x50
    then arrow_down
    else if scancode == 0x4B
    then arrow_left
    else if scancode == 0x4D
    then arrow_right
    else nothing

-- The switch on the key code.
unfoldable pub key_action : ℕ → Action
key_action key =
    if key == key_enter
    then enter
    else if key == key_backspace
    then backspace
    else if key == key_tab
    then tab
    else insertion key

unfoldable pub terminal_on_key : KeyboardLayout → ℕ → KeyboardState → Action × KeyboardState
unfolding extended_action key_action
terminal_on_key layout scancode k =
    if k.is_extended_scancode
    then (extended_action scancode, record k { is_extended_scancode = false })
    else (key_action (scancode_to_keycode layout (k.shift) scancode), k)

unfoldable pub keyboard_handler : KeyboardLayout → ℕ → KeyboardState → Action × KeyboardState
unfolding terminal_on_key
keyboard_handler layout scancode k =
    if scancode == 0x2A || scancode == 0x36
    then (nothing, record k { shift = true })
    else if scancode == 0xAA || scancode == 0xB6
    then (nothing, record k { shift = false })
    else if scancode == 0xE0
    then (nothing, record k { is_extended_scancode = true })
    else if leb 0x80 scancode
    then (nothing, record k { is_extended_scancode = false })
    else if scancode == 0
    then (nothing, k)
    else terminal_on_key layout scancode k

-- The actions that edit the input line; `none` for those that do more.
unfoldable pub edit_line : Action → InputLine → Option InputLine
edit_line nothing l = some l
edit_line arrow_left l = some (cursor_move_inline false l)
edit_line arrow_right l = some (cursor_move_inline true l)
edit_line backspace l = some (handle_input_buffer_deletion l)
edit_line (insertion key) l = some (handle_input_buffer_insertion key l)
edit_line arrow_up l = none
edit_line arrow_down l = none
edit_line enter l = none
edit_line tab l = none

-- One interrupt after another, as long as each edits the line.
unfoldable pub type_keys :
    KeyboardLayout → List ℕ → KeyboardState → InputLine → Option (KeyboardState × InputLine)
unfolding keyboard_handler edit_line
type_keys layout [] k l = some (k, l)
type_keys layout (c ∷ codes) k l =
    let (action, k') = keyboard_handler layout c k in
    elim (edit_line action l) [ none ↦ none | some l' ↦ type_keys layout codes k' l' ]
