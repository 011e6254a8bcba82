-- ===== src/Keyboard/Prefix.antt =====
-- The extended prefix and the shift keys of kernel/io/keyboard/keyboard.cpp.
use esz_os.Base.{ℕ, ◌≡◌, refl, arith, Bool, true, false, ◌||◌, ◌==◌, if◌then◌else◌, List, [], ◌∷◌}
use esz_os.Keymap.{KeyboardLayout}
use esz_os.Keyboard.{KeyboardState, terminal_on_key, keyboard_handler}

-- The interrupts as steps, with the environment choosing the scancodes.
pub data Interrupts (layout : KeyboardLayout) (s : KeyboardState)
    : KeyboardState → List ℕ → Type 0 where
  start : Interrupts layout s s []
  key :
      {t : KeyboardState} {codes : List ℕ}
      → Interrupts layout s t codes
      → (c : ℕ) → Interrupts layout s ((keyboard_handler layout c t).1) (c ∷ codes)

-- The last press or release of a shift key decides, with the newest scancode in front.
unfoldable pub last_shift : Bool → List ℕ → Bool
last_shift at_first [] = at_first
last_shift at_first (c ∷ codes) =
    if c == 0x2A || c == 0x36
    then true
    else if c == 0xAA || c == 0xB6
    then false
    else last_shift at_first codes

-- Whether the newest scancodes are a prefix that no key has followed yet.
unfoldable pub is_open_prefix : Bool → List ℕ → Bool
is_open_prefix at_first [] = at_first
is_open_prefix at_first (c ∷ codes) =
    if c == 0xE0
    then true
    else if ((c == 0x2A || c == 0x36) || (c == 0xAA || c == 0xB6)) || c == 0
    then is_open_prefix at_first codes
    else false

step_lem :
    (layout : KeyboardLayout) (c : ℕ) (t : KeyboardState) (before ahead : Bool)
    → t.shift ≡ before
    → t.is_extended_scancode ≡ ahead
    → (((keyboard_handler layout c t).1).shift ≡ (
        if c == 0x2A || c == 0x36 then true else if c == 0xAA || c == 0xB6 then false else before))
      × (((keyboard_handler layout c t).1).is_extended_scancode ≡ (
          if c == 0xE0
          then true
          else if ((c == 0x2A || c == 0x36) || (c == 0xAA || c == 0xB6)) || c == 0
          then ahead
          else false))
unfolding keyboard_handler terminal_on_key
step_lem layout c t before ahead e f = (ground (arith, e), ground (arith, e, f))

-- After any sequence of interrupts, shift is held exactly if the last shift key that moved went
-- down, and a scancode is taken as extended exactly if a prefix came after the last other key.
pub Interrupts_lem :
    (layout : KeyboardLayout) (s t : KeyboardState) (codes : List ℕ)
    → Interrupts layout s t codes
    → (t.shift ≡ last_shift (s.shift) codes)
      × (t.is_extended_scancode ≡ is_open_prefix (s.is_extended_scancode) codes)
unfolding last_shift is_open_prefix
Interrupts_lem layout s _ [] start = (refl, refl)
Interrupts_lem layout s _ _ (key {t} {codes} run c) =
    let (e, f) = Interrupts_lem layout s t codes run in
    step_lem layout c t (last_shift (s.shift) codes) (is_open_prefix (s.is_extended_scancode) codes)
      e f
