-- ===== src/Keymap.antt =====
-- Scancodes and key codes: kernel/maps/keymap.cpp and keymap.h.
pub mod Laws
use esz_os.Base.{
  ℕ, Bool, true, false, leb, if◌then◌else◌, List, [], ◌∷◌, get_elem?, Option, some, none,
}

pub data KeyboardLayout : Type 0 where
  layout_us layout_de : KeyboardLayout

abbrev pub key_enter : ℕ
key_enter = 256

abbrev pub key_backspace : ℕ
key_backspace = 257

abbrev pub key_tab : ℕ
key_tab = 258

abbrev pub key_lshift : ℕ
key_lshift = 259

abbrev pub key_rshift : ℕ
key_rshift = 260

abbrev pub key_lctrl : ℕ
key_lctrl = 261

abbrev pub key_rctrl : ℕ
key_rctrl = 262

abbrev pub key_lalt : ℕ
key_lalt = 263

abbrev pub key_ralt : ℕ
key_ralt = 264

abbrev pub key_capslock : ℕ
key_capslock = 265

abbrev pub key_escape : ℕ
key_escape = 266

abbrev pub key_de_ae : ℕ
key_de_ae = 500

abbrev pub key_de_oe : ℕ
key_de_oe = 501

abbrev pub key_de_ue : ℕ
key_de_ue = 502

abbrev pub key_de_ss : ℕ
key_de_ss = 503

abbrev pub key_de_ae_caps : ℕ
key_de_ae_caps = 504

abbrev pub key_de_oe_caps : ℕ
key_de_oe_caps = 505

abbrev pub key_de_ue_caps : ℕ
key_de_ue_caps = 506

unfoldable pub us_plain : List ℕ
us_plain =
    0 ∷ key_escape ∷ b'1' ∷ b'2' ∷ b'3' ∷ b'4' ∷ b'5' ∷ b'6' ∷ b'7' ∷ b'8' ∷ b'9' ∷ b'0' ∷ b'-'
    ∷ b'=' ∷ key_backspace ∷ key_tab ∷ b'q' ∷ b'w' ∷ b'e' ∷ b'r' ∷ b't' ∷ b'y' ∷ b'u' ∷ b'i' ∷ b'o'
    ∷ b'p' ∷ b'[' ∷ b']' ∷ key_enter ∷ key_lctrl ∷ b'a' ∷ b's' ∷ b'd' ∷ b'f' ∷ b'g' ∷ b'h' ∷ b'j'
    ∷ b'k' ∷ b'l' ∷ b';' ∷ 39 ∷ b'`' ∷ key_lshift ∷ 92 ∷ b'z' ∷ b'x' ∷ b'c' ∷ b'v' ∷ b'b' ∷ b'n'
    ∷ b'm' ∷ b',' ∷ b'.' ∷ b'/' ∷ key_rshift ∷ b'*' ∷ key_lalt ∷ b' ' ∷ []

unfoldable pub us_shifted : List ℕ
us_shifted =
    0 ∷ key_escape ∷ b'!' ∷ b'@' ∷ b'#' ∷ b'$' ∷ b'%' ∷ b'^' ∷ b'&' ∷ b'*' ∷ b'(' ∷ b')' ∷ b'_'
    ∷ b'+' ∷ key_backspace ∷ key_tab ∷ b'Q' ∷ b'W' ∷ b'E' ∷ b'R' ∷ b'T' ∷ b'Y' ∷ b'U' ∷ b'I' ∷ b'O'
    ∷ b'P' ∷ b'{' ∷ b'}' ∷ key_enter ∷ key_lctrl ∷ b'A' ∷ b'S' ∷ b'D' ∷ b'F' ∷ b'G' ∷ b'H' ∷ b'J'
    ∷ b'K' ∷ b'L' ∷ b':' ∷ b'"' ∷ b'~' ∷ key_lshift ∷ b'|' ∷ b'Z' ∷ b'X' ∷ b'C' ∷ b'V' ∷ b'B' ∷ b'N'
    ∷ b'M' ∷ b'<' ∷ b'>' ∷ b'?' ∷ key_rshift ∷ b'*' ∷ key_lalt ∷ b' ' ∷ []

unfoldable pub de_plain : List ℕ
de_plain =
    0 ∷ key_escape ∷ b'1' ∷ b'2' ∷ b'3' ∷ b'4' ∷ b'5' ∷ b'6' ∷ b'7' ∷ b'8' ∷ b'9' ∷ b'0' ∷ key_de_ss
    ∷ 39 ∷ key_backspace ∷ key_tab ∷ b'q' ∷ b'w' ∷ b'e' ∷ b'r' ∷ b't' ∷ b'z' ∷ b'u' ∷ b'i' ∷ b'o'
    ∷ b'p' ∷ key_de_ue ∷ b'+' ∷ key_enter ∷ key_lctrl ∷ b'a' ∷ b's' ∷ b'd' ∷ b'f' ∷ b'g' ∷ b'h'
    ∷ b'j' ∷ b'k' ∷ b'l' ∷ key_de_oe ∷ key_de_ae ∷ b'^' ∷ key_lshift ∷ b'#' ∷ b'y' ∷ b'x' ∷ b'c'
    ∷ b'v' ∷ b'b' ∷ b'n' ∷ b'm' ∷ b',' ∷ b'.' ∷ b'-' ∷ key_rshift ∷ b'*' ∷ key_lalt ∷ b' ' ∷ []

unfoldable pub de_shifted : List ℕ
de_shifted =
    0 ∷ key_escape ∷ b'!' ∷ b'"' ∷ b'3' ∷ b'$' ∷ b'%' ∷ b'&' ∷ b'/' ∷ b'(' ∷ b')' ∷ b'=' ∷ b'?'
    ∷ b'`' ∷ key_backspace ∷ key_tab ∷ b'Q' ∷ b'W' ∷ b'E' ∷ b'R' ∷ b'T' ∷ b'Z' ∷ b'U' ∷ b'I' ∷ b'O'
    ∷ b'P' ∷ key_de_ue_caps ∷ b'*' ∷ key_enter ∷ key_lctrl ∷ b'A' ∷ b'S' ∷ b'D' ∷ b'F' ∷ b'G' ∷ b'H'
    ∷ b'J' ∷ b'K' ∷ b'L' ∷ key_de_oe_caps ∷ key_de_ae_caps ∷ b'2' ∷ key_lshift ∷ 39 ∷ b'Y' ∷ b'X'
    ∷ b'C' ∷ b'V' ∷ b'B' ∷ b'N' ∷ b'M' ∷ b';' ∷ b':' ∷ b'_' ∷ key_rshift ∷ b'*' ∷ key_lalt ∷ b' '
    ∷ []

unfoldable pub us_keymap : Bool → List ℕ
unfolding us_plain us_shifted
us_keymap shift = if shift then us_shifted else us_plain

unfoldable pub de_keymap : Bool → List ℕ
unfolding de_plain de_shifted
de_keymap shift = if shift then de_shifted else de_plain

unfoldable pub keymap_of : KeyboardLayout → Bool → List ℕ
unfolding us_keymap de_keymap
keymap_of layout_de shift = de_keymap shift
keymap_of layout_us shift = us_keymap shift

-- The element of a table; 0 stands for what a read behind its end would give.
unfoldable pub elem_or_zero : Option ℕ → ℕ
elem_or_zero none = 0
elem_or_zero (some key) = key

unfoldable pub scancode_to_keycode : KeyboardLayout → Bool → ℕ → ℕ
unfolding keymap_of elem_or_zero
scancode_to_keycode layout shift scancode =
    if leb 0x3A scancode then 0 else elem_or_zero (get_elem? (keymap_of layout shift) scancode)
