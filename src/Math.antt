-- ===== src/Math.antt =====
-- Rounding and alignment on `uint64_t`, of kernel/math/math.h.
pub mod Laws
mod Tests
use esz_os.Base.{ℕ, zero, suc, ◌+◌, ◌-◌, ◌*◌, ◌/◌, ◌%◌, ◌^◌, Bool, ◌==◌, if◌then◌else◌, u64}

-- Sums and differences wrap around modulo 2 ^ 64.
unfoldable pub divide_round_up : ℕ → ℕ → ℕ
divide_round_up a b = if b == 0 then 0 else (u64 (u64 (a + b) + 2 ^ 64 - 1)) / b

unfoldable pub is_aligned : ℕ → ℕ → Bool
is_aligned addr align = if align == 0 then addr == 0 else addr % align == 0

unfoldable pub align_up : ℕ → ℕ → ℕ
align_up addr align =
    if align == 0
    then addr
    else let remainder = addr % align in
      if remainder == 0 then addr else u64 (addr + (align - remainder))

unfoldable pub align_down : ℕ → ℕ → ℕ
align_down addr align = if align == 0 then addr else addr - addr % align
