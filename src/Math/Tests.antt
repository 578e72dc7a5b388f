-- ===== src/Math/Tests.antt =====
-- Runs of the functions of math.hh.
use rikai_os.Base.{refl, some, ◌≡◌}
use rikai_os.Math.{logn, clamp}

clamp_runs : (clamp 3 9 12 ≡ 9) × (clamp 3 9 1 ≡ 3) × (logn 10 1234 ≡ some 3)
unfolding clamp logn
clamp_runs = (refl, refl, refl)
