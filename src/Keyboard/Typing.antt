-- ===== src/Keyboard/Typing.antt =====
-- Typing characters: kernel/io/keyboard/keyboard.cpp, kernel/maps/keymap.cpp and
-- kernel/terminal/terminal.cpp together.
use esz_os.Base.{
  ℕ, suc, length, ◌<◌, ◌≡◌, ◌≢◌, refl, ◌∙◌, ap, arith, Bool, false, ◌==◌, if◌then◌else◌, List, [],
  ◌∷◌, ◌++◌, u8, Option, none, some, subst, sym,
}
use esz_os.Keymap.{KeyboardLayout, scancode_to_keycode}
use esz_os.Terminal.{InputLine, insert_char_at_cursor, handle_input_buffer_insertion}
use esz_os.Terminal.Editing.{
  Edits, HasRoom, IsBeside, IsBeside-refl, IsBeside-trans, insert_char_at_cursor-Edited,
}
use esz_os.Keyboard.{
  KeyboardState, insertion, key_action, terminal_on_key, keyboard_handler, edit_line, type_keys,
}

-- The scancodes are those of keys with a character in this state of shift, and `s` has these.
abbrev pub Types : KeyboardLayout → Bool → List ℕ → List ℕ → Type 0
Types layout shift [] [] = Unit {0}
Types layout shift [] (c ∷ s) = ⊥
Types layout shift (code ∷ codes) [] = ⊥
Types layout shift (code ∷ codes) (c ∷ s) =
    (code < 0x3A)
    × (code ≢ 0)
    × (code ≢ 0x2A)
    × (code ≢ 0x36)
    × (scancode_to_keycode layout shift code ≡ c)
    × (c ≢ 0)
    × (c < 256)
    × Types layout shift codes s

append_assoc : (a b c : List ℕ) → (a ++ b) ++ c ≡ a ++ (b ++ c)
append_assoc [] b c = refl
append_assoc (x ∷ a) b c = ap (λ z. x ∷ z) (append_assoc a b c)

append_nil : (a : List ℕ) → a ≡ a ++ []
append_nil [] = refl
append_nil (x ∷ a) = ap (λ z. x ∷ z) (append_nil a)

char_key :
    (layout : KeyboardLayout) (code c : ℕ) (k : KeyboardState)
    → code < 0x3A
    → code ≢ 0
    → code ≢ 0x2A
    → code ≢ 0x36
    → k.is_extended_scancode ≡ false
    → scancode_to_keycode layout (k.shift) code ≡ c
    → c < 256
    → keyboard_handler layout code k ≡ (insertion c, k)
unfolding keyboard_handler terminal_on_key key_action
char_key layout code c k lt a b d plain key small = ground (arith, key, plain)

inserted :
    (c : ℕ) (l : InputLine)
    → c ≢ 0
    → c < 256
    → edit_line (insertion c) l ≡ some (insert_char_at_cursor c l)
unfolding edit_line handle_input_buffer_insertion
inserted c l ne small =
    let e : u8 c ≡ c = omega arith in
    let z : (c == 0) ≡ false = ground (arith, ne) in
    ap (λ x. some (if x == 0 then l else insert_char_at_cursor x l)) e
    ∙ ap (λ b. some (if b then l else insert_char_at_cursor c l)) z

-- What the interrupts after each other give: the keys as before, the text typed, and the rest of
-- the line as it was.
unfoldable pub Typed :
    ℕ → KeyboardState → InputLine → List ℕ → List ℕ → Option (KeyboardState × InputLine) → Type 0
Typed max_chars k l before after none = ⊥
Typed max_chars k l before after (some (k', l')) =
    (k' ≡ k) × Edits l' before after × IsBeside max_chars l l'

more-Typed :
    (max_chars : ℕ) (k : KeyboardState) (l1 l2 : InputLine) (before after : List ℕ)
    (r : Option (KeyboardState × InputLine))
    → IsBeside max_chars l1 l2
    → Typed max_chars k l2 before after r
    → Typed max_chars k l1 before after r
unfolding Typed
more-Typed max_chars k l1 l2 before after none b t = t
more-Typed max_chars k l1 l2 before after (some (k', l')) b (same, edits, c) =
    (same, edits, IsBeside-trans max_chars l1 l2 l' b c)

inserted-HasRoom :
    (max_chars c n : ℕ) (l : InputLine)
    → HasRoom max_chars (suc n) l
    → HasRoom max_chars n (insert_char_at_cursor c l)
unfolding insert_char_at_cursor
inserted-HasRoom max_chars c n l room = record {
  in_buffer = omega (arith, room.in_buffer);
  in_row = omega (arith, room.in_row);
}

one_key :
    (layout : KeyboardLayout) (code c : ℕ) (codes : List ℕ) (k : KeyboardState) (l : InputLine)
    → keyboard_handler layout code k ≡ (insertion c, k)
    → edit_line (insertion c) l ≡ some (insert_char_at_cursor c l)
    → type_keys layout (code ∷ codes) k l ≡ type_keys layout codes k (insert_char_at_cursor c l)
unfolding type_keys
one_key layout code c codes k l e f =
    ap (λ r. elim (edit_line (r.0) l) [ none ↦ none | some l' ↦ type_keys layout codes (r.1) l' ]) e
    ∙ ap (λ r. elim r [ none ↦ none | some l' ↦ type_keys layout codes k l' ]) f

-- The interrupts of a sequence of character keys put their characters before the cursor, in the
-- buffer and on the screen, in the order of the keys. Shift and the prefix stay, the prompt stays,
-- and so does everything behind the buffer and the row, which must have room for the characters.
pub type_keys-Typed :
    (max_chars : ℕ) (layout : KeyboardLayout) (codes s : List ℕ) (k : KeyboardState) (l : InputLine)
    (before after : List ℕ)
    → k.is_extended_scancode ≡ false
    → Types layout (k.shift) codes s
    → Edits l before after
    → HasRoom max_chars (length s) l
    → Typed max_chars k l (before ++ s) after (type_keys layout codes k l)
unfolding type_keys Typed
type_keys-Typed max_chars layout [] [] k l before after plain t h room =
    (refl, subst (λ b. Edits l b after) (append_nil before) h, IsBeside-refl max_chars l)
type_keys-Typed max_chars layout [] (c ∷ s) k l before after plain t h room = absurd t
type_keys-Typed max_chars layout (code ∷ codes) [] k l before after plain t h room = absurd t
type_keys-Typed max_chars layout (code ∷ codes) (c ∷ s) k l before after plain
      (lt, a, b, d, key, ne, small, rest) h room =
    let here : HasRoom max_chars 1 l = record {
      in_buffer = omega (arith, room.in_buffer);
      in_row = omega (arith, room.in_row);
    } in
    let (next, beside) = insert_char_at_cursor-Edited max_chars l c before after h ne here in
    let tail =
      type_keys-Typed max_chars layout codes s k (insert_char_at_cursor c l) (before ++ (c ∷ []))
        after plain rest next (inserted-HasRoom max_chars c (length s) l room) in
    let step =
      one_key layout code c codes k l (char_key layout code c k lt a b d plain key small)
        (inserted c l ne small) in
    subst (Typed max_chars k l (before ++ (c ∷ s)) after) (sym step) (
      more-Typed max_chars k l (insert_char_at_cursor c l) (before ++ (c ∷ s)) after
        (type_keys layout codes k (insert_char_at_cursor c l)) beside
        (subst
          (λ b.
            Typed max_chars k (insert_char_at_cursor c l) b after
              (type_keys layout codes k (insert_char_at_cursor c l)))
          (append_assoc before (c ∷ []) s) tail))
