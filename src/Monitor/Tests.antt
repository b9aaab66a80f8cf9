-- ===== src/Monitor/Tests.antt =====
-- Concrete runs of the monitor, on the configurations of `test_decide`.
use kasop.Common.{ℕ, ◌*◌, ◌≡◌, refl, ◌↔◌, ◌⊎◌, List, [], ◌∷◌, true, false, none, some, ok, arith}
use kasop.Common.Int.{ℤ, pos, max_ℤ}
use kasop.Sensor.{Measurement, Temperature}
use kasop.Fan.TempControl.{new_temp_control}
use kasop.Fan.Tests.{Switch, two_point, two_point-Limiting}
use kasop.Monitor.Chain.{Message, ChainTemperature, ChainState, secs, tick, get_temperature}
use kasop.Monitor.Protocol.{Event, step, run, Idle, IsBroken, run_protocol}
use kasop.Monitor.Decision.{
  FanControlMode, FanControlConfig, TempControlConfig, Config, ControlDecision, decide,
}
use kasop.Monitor.Safety.{IsDangerous, LacksFans, Decides, decide-shutdown}
use kasop.Monitor.Aggregate.{TemperatureAccumulator, calc_result}
use kasop.Monitor.Tick.{is_broken, MonitorInner, do_tick}
use kasop.Monitor.Reaction.{IsFailed, IsTick, do_tick_dangerous, do_tick_total}

abbrev degrees : ℕ → ℤ
degrees n = pos (n * 256)

abbrev warm : Temperature
warm = record { local = Measurement.ok (degrees 50); remote = Measurement.ok (degrees 60) }

abbrev hot : Temperature
hot = record { local = Measurement.ok (degrees 100); remote = Measurement.not_present }

abbrev history : List Event
history =
    Event.message 0 Message.on
    ∷ Event.timer (secs 100)
    ∷ Event.message (secs 120) (Message.running warm)
    ∷ Event.timer (secs 125)
    ∷ []

run_protocol_example : Idle history ↔ (¬ IsBroken (run ChainState.off history))
run_protocol_example = run_protocol history

late-IsBroken :
    IsBroken (run ChainState.off (Event.message 0 Message.on ∷ Event.timer (secs 180) ∷ []))
unfolding run step tick
late-IsBroken = tt

abbrev temp_config : TempControlConfig
temp_config = record { dangerous_temp = degrees 100; hot_temp = degrees 80 }

abbrev pid_config : FanControlConfig
pid_config = record { mode = FanControlMode.target_temperature (degrees 75); min_fans = 2 }

abbrev both_on_pid : Config
both_on_pid = record {
  fan_config = some pid_config;
  temp_config = some temp_config;
  fans_on_while_warming_up = true;
}

decide-shutdown_example :
    Decides (decide both_on_pid 1 (ChainTemperature.ok (degrees 50))) ControlDecision.shutdown ↔ (
      IsDangerous both_on_pid.temp_config (ChainTemperature.ok (degrees 50))
      ⊎ ((fc : FanControlConfig) × (both_on_pid.fan_config ≡ some fc)
          × LacksFans fc both_on_pid.temp_config 1 (ChainTemperature.ok (degrees 50))))
decide-shutdown_example = decide-shutdown both_on_pid 1 (ChainTemperature.ok (degrees 50))

pid_at_50 :
    Decides
      (decide both_on_pid 2 (ChainTemperature.ok (degrees 50)))
      (ControlDecision.use_pid (degrees 75) (degrees 50))
unfolding decide
pid_at_50 = (_, refl)

abbrev readings : TemperatureAccumulator
readings = record {
  chain_temperatures =
      ChainTemperature.ok (degrees 10)
      ∷ ChainTemperature.unknown
      ∷ ChainTemperature.ok (degrees 5)
      ∷ [];
}

calc_result_test : calc_result readings ≡ ChainTemperature.ok (degrees 10)
unfolding calc_result max_ℤ
calc_result_test = refl

-- Two chains, of which the second is given; and a clock that stands at ten seconds.
abbrev with_chain : ChainState → MonitorInner Switch
with_chain state = record {
  chains =
      record { state = ChainState.running 0 (secs 9) warm; hashboard_idx = 6 }
      ∷ record { state = state; hashboard_idx = 7 }
      ∷ [];
  config = both_on_pid;
  fan_control = record { fan_rps = 20 ∷ 20 ∷ []; fan_pwm = 30 };
  current_fan_speed = none;
  pid = new_temp_control two_point 0;
  failure_state = false;
  status = none;
}

abbrev clock : ℕ → ℕ
clock k = secs 10

silent_breaks : is_broken (tick (ChainState.running 0 0 warm) (secs 10)) ≡ true
unfolding tick
silent_breaks = refl

hot-IsDangerous :
    IsDangerous
      (some temp_config)
      (get_temperature (tick (ChainState.running 0 (secs 9) hot) (secs 10)))
unfolding tick get_temperature
hot-IsDangerous = omega arith

do_tick_dangerous_example :
    IsFailed
      (with_chain (ChainState.running 0 (secs 9) hot))
      (do_tick two_point clock (with_chain (ChainState.running 0 (secs 9) hot)))
do_tick_dangerous_example =
    do_tick_dangerous two_point clock (with_chain (ChainState.running 0 (secs 9) hot)) 1
      (record { state = ChainState.running 0 (secs 9) hot; hashboard_idx = 7 }) refl hot-IsDangerous

do_tick_total_example :
    (done : MonitorInner Switch) × (do_tick two_point clock (with_chain ChainState.off) ≡ ok done)
    × IsTick clock (with_chain ChainState.off) done
do_tick_total_example =
    do_tick_total two_point two_point-Limiting clock (with_chain ChainState.off) tt
