-- ===== src/Math/Tests.antt =====
-- Runs of kernel/math/math.h.
use esz_os.Base.{◌≡◌, refl}
use esz_os.Math.{align_up, align_down}

align_runs : (align_up 5000 4096 ≡ 8192) × (align_down 5000 4096 ≡ 4096) × (align_up 7 0 ≡ 7)
unfolding align_up align_down
align_runs = (refl, refl, refl)
