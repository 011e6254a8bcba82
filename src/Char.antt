-- ===== src/Char.antt =====
-- The character classes of kernel/types/char/char.h. A `char` is a byte; those above 127 are
-- negative in C, and fail every test here as they do there.
pub mod Laws
use esz_os.Base.{ℕ, ◌+◌, ◌-◌, Bool, ◌&&◌, ◌||◌, not, ◌==◌, leb, if◌then◌else◌}

unfoldable pub is_digit : ℕ → Bool
is_digit c = leb b'0' c && leb c b'9'

unfoldable pub is_alpha : ℕ → Bool
is_alpha c = (leb b'A' c && leb c b'Z') || (leb b'a' c && leb c b'z')

unfoldable pub is_upper_alpha : ℕ → Bool
is_upper_alpha c = leb b'A' c && leb c b'Z'

unfoldable pub is_lower_alpha : ℕ → Bool
is_lower_alpha c = leb b'a' c && leb c b'z'

-- Blank and tab.
unfoldable pub is_whitespace : ℕ → Bool
is_whitespace c = c == 32 || c == 9

unfoldable pub to_upper : ℕ → ℕ
unfolding is_lower_alpha
to_upper c = if not (is_lower_alpha c) then c else c - 32

unfoldable pub to_lower : ℕ → ℕ
unfolding is_upper_alpha
to_lower c = if not (is_upper_alpha c) then c else c + 32
