-- ===== src/Fan/Tests.antt =====
-- Concrete runs of the fan controller, with a controller that gives its lower limit up to the
-- target and its upper limit above.
use kasop.Common.{◌≡◌, refl, if◌then◌else◌, arith, [], ◌∷◌}
use kasop.Common.Int.{ℤ, pos, leb_ℤ}
use kasop.Fan.{num_fans_running}
use kasop.Fan.TempControl.{PidController}
use kasop.Fan.Limits.{Limiting}

pub record Switch : Type 0 where
  pub low : ℤ
  pub high : ℤ
  pub target : ℤ

abbrev pub two_point : PidController Switch
two_point = record {
  new = λ p i d. record { low = pos 0; high = pos 0; target = pos 0 };
  set_limits = λ s lo hi. record s { low = lo; high = hi };
  set_target = λ s t. record s { target = t };
  update = λ s v dt. (s, if leb_ℤ v s.target then s.low else s.high);
}

pub two_point-Limiting : Limiting two_point
two_point-Limiting p lo hi target value dt h = ground arith

running_test : num_fans_running (record { rpm = 0 ∷ 3600 ∷ 60 ∷ [] }) ≡ 2
unfolding num_fans_running
running_test = refl
