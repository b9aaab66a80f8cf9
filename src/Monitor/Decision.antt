-- ===== src/Monitor/Decision.antt =====
-- `FanControlConfig`, `TempControlConfig`, `Config` and the rules of `ControlDecision` in
-- src/monitor.rs. Temperatures are integers, in 1/256 of a degree.
use kasop.Common.{
  ℕ, Bool, false, Option, none, some, ltb, ◌==◌, if◌then◌else◌, Outcome, ok, panic, ◌>>=◌,
}
use kasop.Common.Int.{ℤ, leb_ℤ}
use kasop.Fan.{Speed, full_speed, stopped}
use kasop.Monitor.Chain.{ChainTemperature}

pub data FanControlMode : Type 0 where
  fixed_speed : Speed → FanControlMode
  target_temperature : ℤ → FanControlMode

pub record FanControlConfig : Type 0 where
  pub mode : FanControlMode
  pub min_fans : ℕ

pub record TempControlConfig : Type 0 where
  pub dangerous_temp : ℤ
  pub hot_temp : ℤ

pub record Config : Type 0 where
  pub fan_config : Option FanControlConfig
  pub temp_config : Option TempControlConfig
  pub fans_on_while_warming_up : Bool

-- The texts of the reasons.
pub data Reason : Type 0 where
  unknown_temperature user_defined_fan_speed temperature_above_hot user_requested_pid : Reason
  wrong_configuration temperature_readout_failed temperature_above_dangerous : Reason
  not_enough_fans no_action : Reason

pub data ControlDecision : Type 0 where
  shutdown : ControlDecision
  use_pid : ℤ → ℤ → ControlDecision
  use_fixed_speed : Speed → ControlDecision
  nothing : ControlDecision

pub record ControlDecisionExplained : Type 0 where
  pub decision : ControlDecision
  pub reason : Reason

abbrev pub explained : ControlDecision → Reason → ControlDecisionExplained
explained d r = record { decision = d; reason = r }

unfoldable pub decide_mode :
    FanControlMode → TempControlConfig → ChainTemperature → Outcome ControlDecisionExplained
decide_mode (fixed_speed pwm) temp_config temp =
    ok (explained (use_fixed_speed pwm) user_defined_fan_speed)
decide_mode (target_temperature target) temp_config (ChainTemperature.ok input) =
    if leb_ℤ temp_config.hot_temp input
    then ok (explained (use_fixed_speed full_speed) temperature_above_hot)
    else ok (explained (use_pid target input) user_requested_pid)
decide_mode (target_temperature target) temp_config ChainTemperature.failed = panic
decide_mode (target_temperature target) temp_config ChainTemperature.unknown = panic

unfoldable pub decide_fan_control :
    FanControlConfig → TempControlConfig → ChainTemperature → Outcome ControlDecisionExplained
unfolding decide_mode
decide_fan_control fan_config temp_config ChainTemperature.unknown =
    ok (explained (use_fixed_speed full_speed) unknown_temperature)
decide_fan_control fan_config temp_config ChainTemperature.failed =
    decide_mode fan_config.mode temp_config ChainTemperature.failed
decide_fan_control fan_config temp_config (ChainTemperature.ok t) =
    decide_mode fan_config.mode temp_config (ChainTemperature.ok t)

unfoldable pub decide_mode_notemp : FanControlMode → ControlDecisionExplained
decide_mode_notemp (fixed_speed pwm) = explained (use_fixed_speed pwm) user_defined_fan_speed
decide_mode_notemp (target_temperature _) =
    explained (use_fixed_speed full_speed) wrong_configuration

unfoldable pub decide_fan_control_notemp : FanControlConfig → ControlDecisionExplained
unfolding decide_mode_notemp
decide_fan_control_notemp fan_config = decide_mode_notemp fan_config.mode

-- The section TEMP_DANGER: the reason to shut down, if there is one.
unfoldable pub temp_danger : Option TempControlConfig → ChainTemperature → Option Reason
temp_danger none temp = none
temp_danger (some temp_config) ChainTemperature.failed = some temperature_readout_failed
temp_danger (some temp_config) ChainTemperature.unknown = none
temp_danger (some temp_config) (ChainTemperature.ok input) =
    if leb_ℤ temp_config.dangerous_temp input then some temperature_above_dangerous else none

abbrev pub is_stopped : ControlDecision → Bool
is_stopped (use_fixed_speed speed) = speed.pwm == stopped.pwm
is_stopped shutdown = false
is_stopped (use_pid _ _) = false
is_stopped nothing = false

-- The section FAN_DANGER.
unfoldable pub fan_danger :
    FanControlConfig → ℕ → ControlDecisionExplained → ControlDecisionExplained
fan_danger fan_config num_fans_running e =
    if is_stopped e.decision
    then e
    else if ltb num_fans_running fan_config.min_fans
    then explained shutdown not_enough_fans
    else e

unfoldable pub control_fans :
    Option FanControlConfig
    → Option TempControlConfig
    → ℕ
    → ChainTemperature
    → Outcome ControlDecisionExplained
unfolding decide_fan_control decide_fan_control_notemp fan_danger
control_fans none temp_config num_fans_running temp = ok (explained nothing no_action)
control_fans (some fan_config) (some temp_config) num_fans_running temp =
    decide_fan_control fan_config temp_config temp >>= λ e.
    ok (fan_danger fan_config num_fans_running e)
control_fans (some fan_config) none num_fans_running temp =
    ok (fan_danger fan_config num_fans_running (decide_fan_control_notemp fan_config))

unfoldable pub decide_or :
    Option Reason → Outcome ControlDecisionExplained → Outcome ControlDecisionExplained
decide_or none rest = rest
decide_or (some reason) rest = ok (explained shutdown reason)

unfoldable pub decide : Config → ℕ → ChainTemperature → Outcome ControlDecisionExplained
unfolding temp_danger control_fans decide_or
decide config num_fans_running temp =
    decide_or (temp_danger config.temp_config temp)
      (control_fans config.fan_config config.temp_config num_fans_running temp)
