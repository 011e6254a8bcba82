-- ===== src/Base/Buffers.antt =====
-- Bytes at the addresses from a pointer on: `m i` is `p[i]` in C.
use Prim.Native.Nat.{ℕ, ◌+◌, ◌*◌, ◌/◌, ◌%◌, ◌^◌, ◌<◌}
use mathlib.Core.Path.{◌≡◌}
use mathlib.Core.Logic.{◌≢◌}
use native.Mathlib.Omega.{arith}
use esz_os.Base.Tests.{◌==◌, if◌then◌else◌}

abbrev pub Buffer : Type 0
Buffer = ℕ → ℕ

-- `m[a] = v`
unfoldable pub store : Buffer → ℕ → ℕ → Buffer
store m a v i = if i == a then v else m i

-- Every cell holds a `uint8_t`.
abbrev pub IsBytes : Buffer → Type 0
IsBytes m = (i : ℕ) → m i < 256

pub store_self : (m : Buffer) (a v : ℕ) → store m a v a ≡ v
unfolding store
store_self m a v = ground arith

pub store_ne : (m : Buffer) (a v i : ℕ) → i ≢ a → store m a v i ≡ m i
unfolding store
store_ne m a v i ne = ground arith

pub store-IsBytes : (m : Buffer) (a v : ℕ) → IsBytes m → v < 256 → IsBytes (store m a v)
unfolding store
store-IsBytes m a v ok fits i = ground (arith, ok i)

-- The conversions to the fixed widths.
abbrev pub u8 : ℕ → ℕ
u8 n = n % 2 ^ 8

abbrev pub u32 : ℕ → ℕ
u32 n = n % 2 ^ 32

abbrev pub u64 : ℕ → ℕ
u64 n = n % 2 ^ 64

-- A packed field of 16 or of 32 bits, the low byte first.
unfoldable pub read_u16 : Buffer → ℕ → ℕ
read_u16 m a = m a + 0x100 * m (a + 1)

unfoldable pub read_u32 : Buffer → ℕ → ℕ
read_u32 m a = m a + 0x100 * m (a + 1) + 0x10000 * m (a + 2) + 0x1000000 * m (a + 3)

-- The bytes of `v` stand from `a` on.
pub record Stores32 (m : Buffer) (a v : ℕ) : Type 0 where
  pub byte0 : m a ≡ v % 0x100
  pub byte1 : m (a + 1) ≡ v / 0x100 % 0x100
  pub byte2 : m (a + 2) ≡ v / 0x10000 % 0x100
  pub byte3 : m (a + 3) ≡ v / 0x1000000 % 0x100

pub read_u32-Stores32 : (m : Buffer) (a v : ℕ) → Stores32 m a v → v < 2 ^ 32 → read_u32 m a ≡ v
unfolding read_u32
read_u32-Stores32 m a v s lt = omega (arith, s.byte0, s.byte1, s.byte2, s.byte3)

pub read_u32_lt : (m : Buffer) (a : ℕ) → IsBytes m → read_u32 m a < 2 ^ 32
unfolding read_u32
read_u32_lt m a ok = omega (arith, ok a, ok (a + 1), ok (a + 2), ok (a + 3))
