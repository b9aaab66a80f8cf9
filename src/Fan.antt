-- ===== src/Fan.antt =====
-- src/fan.rs: the speed of the fans in percent, the feedback of their pins and the registers of
-- the controller. `usize` has 32 bits on the board, and a product that exceeds them wraps.
pub mod TempControl
pub mod Limits
pub mod Tests
use kasop.Common.{
  ℕ, suc, ◌*◌, ◌%◌, ◌^◌, ◌≤◌, ◌≡◌, List, [], ◌∷◌, map, Bool, ltb, leb, if◌then◌else◌, Outcome, ok,
  assert, ◌>>◌,
}

pub record Speed : Type 0 where
  pub pwm : ℕ

abbrev pub full_speed : Speed
full_speed = record { pwm = 100 }

abbrev pub stopped : Speed
stopped = record { pwm = 0 }

-- `Speed::new`.
unfoldable pub new_speed : ℕ → Outcome Speed
new_speed speed = assert (leb speed 100) >> ok (record { pwm = speed })

pub record Feedback : Type 0 where
  pub rpm : List ℕ

abbrev count_running : List ℕ → ℕ
count_running [] = 0
count_running (rpm ∷ rpms) = let rest = count_running rpms in if ltb 0 rpm then suc rest else rest

unfoldable pub num_fans_running : Feedback → ℕ
num_fans_running f = count_running f.rpm

-- The registers: the pulses of each fan in a second, and the speed that is set.
pub record Control : Type 0 where
  pub fan_rps : List ℕ
  pub fan_pwm : ℕ

unfoldable pub read_feedback : Control → Feedback
read_feedback c = record { rpm = map (λ rps. rps * 60 % 2 ^ 32) c.fan_rps }

-- The register takes the speed as a `u8`.
unfoldable pub set_speed : Control → Speed → Outcome Control
set_speed c speed = assert (leb speed.pwm 100) >> ok (record c { fan_pwm = speed.pwm % 2 ^ 8 })
