-- ===== src/Monitor/Chain.antt =====
-- `Message`, `ChainTemperature`, `ChainState` and `Chain` of src/monitor.rs. An `Instant` is a
-- number of nanoseconds; `duration_since` of a later instant is zero.
use kasop.Common.{ℕ, ◌-◌, ◌*◌, Bool, true, false, leb, if◌then◌else◌}
use kasop.Common.Int.{ℤ, pos, ◌+ℤ◌}
use kasop.Sensor.{Measurement, Temperature}

-- `Duration::from_secs`.
abbrev pub secs : ℕ → ℕ
secs n = n * 1_000_000_000

abbrev pub start_timeout : ℕ
start_timeout = secs 180

abbrev pub run_update_timeout : ℕ
run_update_timeout = secs 10

abbrev pub warm_up_period : ℕ
warm_up_period = secs 90

abbrev pub duration_since : ℕ → ℕ → ℕ
duration_since now earlier = now - earlier

pub data Message : Type 0 where
  on off : Message
  running : Temperature → Message

pub data ChainTemperature : Type 0 where
  unknown failed : ChainTemperature
  ok : ℤ → ChainTemperature

-- 15 degrees, which are added to the temperature of the board.
abbrev pub board_offset : ℤ
board_offset = pos (15 * 256)

unfoldable pub from_local : Measurement → ChainTemperature
unfolding ◌+ℤ◌
from_local (Measurement.ok t) = ChainTemperature.ok (t +ℤ board_offset)
from_local _ = unknown

unfoldable pub from_remote : Measurement → Measurement → ChainTemperature
unfolding from_local
from_remote (Measurement.ok t) local = ChainTemperature.ok t
from_remote _ local = from_local local

pub from_s9_sensor : Temperature → ChainTemperature
unfolding from_remote
from_s9_sensor temp = from_remote temp.remote temp.local

-- The texts of `Broken`.
pub data Fault : Type 0 where
  bad_state_transition took_too_long_to_start failed_to_set_update : Fault

pub data ChainState : Type 0 where
  on : ℕ → ChainState
  running : ℕ → ℕ → Temperature → ChainState
  off : ChainState
  broken : Fault → ChainState

abbrev pub bad_transition : ChainState
bad_transition = ChainState.broken bad_state_transition

unfoldable pub transition : ChainState → ℕ → Message → ChainState
transition ChainState.off now Message.on = ChainState.on now
transition (ChainState.on s) now (Message.running t) = ChainState.running s now t
transition (ChainState.running s h t') now (Message.running t) = ChainState.running s now t
transition (ChainState.on s) now Message.off = ChainState.off
transition (ChainState.running s h t) now Message.off = ChainState.off
transition _ now _ = bad_transition

unfoldable pub tick : ChainState → ℕ → ChainState
tick (ChainState.on s) now =
    if leb start_timeout (duration_since now s)
    then ChainState.broken took_too_long_to_start
    else ChainState.on s
tick (ChainState.running s h t) now =
    if leb run_update_timeout (duration_since now h)
    then ChainState.broken failed_to_set_update
    else ChainState.running s h t
tick ChainState.off now = ChainState.off
tick (ChainState.broken e) now = ChainState.broken e

unfoldable pub get_temperature : ChainState → ChainTemperature
unfolding from_s9_sensor
get_temperature (ChainState.on s) = unknown
get_temperature ChainState.off = unknown
get_temperature (ChainState.broken e) = failed
get_temperature (ChainState.running s h t) = from_s9_sensor t

unfoldable pub is_warming_up : ChainState → ℕ → Bool
is_warming_up (ChainState.on s) now = true
is_warming_up (ChainState.running s h t) now = leb (duration_since now s) warm_up_period
is_warming_up ChainState.off now = false
is_warming_up (ChainState.broken e) now = false

pub record Chain : Type 0 where
  pub state : ChainState
  pub hashboard_idx : ℕ

-- `Chain::new`.
pub new_chain : ℕ → Chain
new_chain idx = record { state = ChainState.off; hashboard_idx = idx }
