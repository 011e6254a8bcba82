-- ===== src/Char/Laws.antt =====
-- How the character functions of kernel/types/char/char.h go together.
use esz_os.Base.{ℕ, ◌≡◌, ◌≢◌, ◌↔◌, ◌⊎◌, true, false, arith}
use esz_os.Char.{is_alpha, is_upper_alpha, is_lower_alpha, to_upper, to_lower}

-- Changing the case keeps letters letters and everything else as it is, lowers what was raised,
-- and never makes a terminator of a character.
pub case_laws :
    (c : ℕ)
    → (to_lower (to_upper c) ≡ to_lower c)
      × (to_upper (to_lower c) ≡ to_upper c)
      × (is_alpha (to_upper c) ≡ is_alpha c)
      × (is_alpha (to_lower c) ≡ is_alpha c)
      × (is_lower_alpha (to_upper c) ≡ false)
      × (is_upper_alpha (to_lower c) ≡ false)
      × ((is_alpha c ≡ true) ↔ ((to_upper c ≢ c) ⊎ (to_lower c ≢ c)))
unfolding is_alpha is_upper_alpha is_lower_alpha to_upper to_lower
case_laws c = ground arith

pub to_lower-ne-zero : (c : ℕ) → c ≢ 0 → to_lower c ≢ 0
unfolding to_lower
to_lower-ne-zero c ne = ground arith

pub to_upper-ne-zero : (c : ℕ) → c ≢ 0 → to_upper c ≢ 0
unfolding to_upper
to_upper-ne-zero c ne = ground arith
