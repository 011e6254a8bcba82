-- ===== src/Keymap/Laws.antt =====
-- The tables of kernel/maps/keymap.cpp.
use esz_os.Base.{
  Bool-cases, inl, inr, ℕ, zero, suc, ◌<◌, ◌≤◌, ◌≡◌, ◌⊎◌, refl, arith, Bool, true, false, ◌&&◌,
  ◌||◌, not, ◌==◌, leb, ltb, List, [], ◌∷◌, some, get_elem?, length, all_below, all_below_sound,
}
use esz_os.Char.{is_lower_alpha, to_upper}
use esz_os.Keymap.{
  KeyboardLayout, layout_us, layout_de, keymap_of, scancode_to_keycode, elem_or_zero, us_keymap,
  de_keymap, us_plain, us_shifted, de_plain, de_shifted,
}

keymap_of-length : (layout : KeyboardLayout) (shift : Bool) → length (keymap_of layout shift) ≡ 0x3A
unfolding keymap_of us_keymap de_keymap us_plain us_shifted de_plain de_shifted
keymap_of-length layout_us true = refl
keymap_of-length layout_us false = refl
keymap_of-length layout_de true = refl
keymap_of-length layout_de false = refl

get_elem?-inside : (s : List ℕ) (i : ℕ) → i < length s → (c : ℕ) × (get_elem? s i ≡ some c)
get_elem?-inside [] i lt = absurd (omega arith)
get_elem?-inside (c ∷ s) zero lt = (c, refl)
get_elem?-inside (c ∷ s) (suc i) lt = get_elem?-inside s i (omega arith)

-- Every scancode that passes the guard of `scancode_to_keycode` is inside the table that it
-- reads, and all others give `KEY_UNKNOWN`.
pub scancode_to_keycode_inside :
    (layout : KeyboardLayout) (shift : Bool) (scancode : ℕ)
    → ((key : ℕ) × (get_elem? (keymap_of layout shift) scancode ≡ some key)
        × (scancode_to_keycode layout shift scancode ≡ key))
      ⊎ ((0x3A ≤ scancode) × (scancode_to_keycode layout shift scancode ≡ 0))
unfolding scancode_to_keycode elem_or_zero
scancode_to_keycode_inside layout shift scancode = elim (Bool-cases (leb 0x3A scancode)) [
  | inl out ↦ inr (ground (arith, out), rw out refl)
  | inr inside ↦
      let (c, e) =
        get_elem?-inside (keymap_of layout shift) scancode
          (ground (arith, keymap_of-length layout shift, inside)) in
      inl (c, e, rw (inside, e) refl)
]

unfoldable pub is_control : ℕ → Bool
is_control key = leb 256 key && ltb key 500

good_pair : ℕ → ℕ → Bool
unfolding is_lower_alpha to_upper is_control
good_pair plain shifted =
    (not (is_lower_alpha plain) || shifted == to_upper plain)
    && (not (is_control plain || is_control shifted) || shifted == plain)

good_key : KeyboardLayout → ℕ → Bool
unfolding good_pair scancode_to_keycode keymap_of us_keymap de_keymap us_plain us_shifted de_plain
    de_shifted elem_or_zero
good_key layout scancode =
    good_pair (scancode_to_keycode layout false scancode) (scancode_to_keycode layout true scancode)

good_keys : (layout : KeyboardLayout) → all_below 0x3A (good_key layout) ≡ true
unfolding all_below good_key good_pair scancode_to_keycode keymap_of us_keymap de_keymap us_plain
    us_shifted de_plain de_shifted elem_or_zero is_lower_alpha to_upper is_control
good_keys layout_us = refl
good_keys layout_de = refl

shift_lem :
    (plain shifted : ℕ)
    → good_pair plain shifted ≡ true
    → ((is_lower_alpha plain ≡ false) ⊎ (shifted ≡ to_upper plain))
      × (((is_control plain ≡ false) × (is_control shifted ≡ false)) ⊎ (shifted ≡ plain))
unfolding good_pair
shift_lem plain shifted good =
    let upper : (is_lower_alpha plain ≡ false) ⊎ (shifted ≡ to_upper plain) =
      elim (Bool-cases (is_lower_alpha plain)) [
        | inl low ↦ inr (ground (arith, good, low))
        | inr high ↦ inl high
      ] in
    let same : ((is_control plain ≡ false) × (is_control shifted ≡ false)) ⊎ (shifted ≡ plain) =
      elim (Bool-cases (is_control plain || is_control shifted)) [
        | inl some_control ↦ inr (ground (arith, good, some_control))
        | inr neither ↦ inl (ground (arith, neither), ground (arith, neither))
      ] in
    (upper, same)

-- In both layouts the shifted key of a small letter is its capital, and a key without a
-- character (enter, tab, control and so on) is the same with shift and without.
pub scancode_to_keycode_shift :
    (layout : KeyboardLayout) (scancode : ℕ)
    → scancode < 0x3A
    → ((is_lower_alpha (scancode_to_keycode layout false scancode) ≡ false)
        ⊎ (scancode_to_keycode layout true scancode
            ≡ to_upper (scancode_to_keycode layout false scancode)))
      × (((is_control (scancode_to_keycode layout false scancode) ≡ false)
            × (is_control (scancode_to_keycode layout true scancode) ≡ false))
          ⊎ (scancode_to_keycode layout true scancode ≡ scancode_to_keycode layout false scancode))
unfolding good_key
scancode_to_keycode_shift layout scancode lt =
    let good = all_below_sound 0x3A (good_key layout) scancode (good_keys layout) lt in
    let plain = scancode_to_keycode layout false scancode in
    let shifted = scancode_to_keycode layout true scancode in shift_lem plain shifted good
