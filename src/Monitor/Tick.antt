-- ===== src/Monitor/Tick.antt =====
-- `MonitorInner`, `Monitor` and their operations in src/monitor.rs. A reading of the clock is the
-- next entry of a sequence of times; the controller of the crate `pid_control` is a parameter. The
-- chains, which the code shares with the tasks that receive their messages, are locked by whoever
-- reads or changes one, so each message (`receive`) and each tick is one step.
use kasop.Common.{
  ℕ, suc, ◌+◌, List, [], ◌∷◌, ◌++◌, get_elem?, set, Option, none, some, Bool, true, false, ◌||◌,
  ◌&&◌, if◌then◌else◌, Outcome, ok, ◌>>=◌,
}
use kasop.Fan.{
  Speed, full_speed, stopped, Feedback, num_fans_running, Control, read_feedback, set_speed,
}
use kasop.Fan.TempControl.{
  PidController, TempControl, new_temp_control, set_warm_up_limits, set_normal_limits, set_target,
  update,
}
use kasop.Monitor.Chain.{
  Message, ChainTemperature, ChainState, Chain, new_chain, transition, tick, get_temperature,
  is_warming_up,
}
use kasop.Monitor.Decision.{Config, ControlDecision, ControlDecisionExplained, decide}
use kasop.Monitor.Aggregate.{TemperatureAccumulator, new_accumulator, add_chain_temp, calc_result}

pub record Status : Type 0 where
  pub config : Config
  pub fan_feedback : Feedback
  pub fan_speed : Option Speed
  pub input_temperature : ChainTemperature
  pub temperature_accumulator : TemperatureAccumulator
  pub decision_explained : ControlDecisionExplained

-- `MonitorInner`, with the last status that the watch channel of `Monitor` was given.
pub record MonitorInner (P : Type 0) : Type 0 where
  pub chains : List Chain
  pub config : Config
  pub fan_control : Control
  pub current_fan_speed : Option Speed
  pub pid : TempControl P
  pub failure_state : Bool
  pub status : Option Status

-- The loop of `do_tick` over the chains: those it leaves, and, unless it met a broken one, the
-- accumulator, whether a chain warms up, and the readings of the clock.
pub data Sweep : Type 0 where
  all_good : List Chain → TemperatureAccumulator → Bool → ℕ → Sweep
  met_broken : List Chain → Sweep

abbrev pub is_broken : ChainState → Bool
is_broken (ChainState.broken e) = true
is_broken ChainState.off = false
is_broken (ChainState.on s) = false
is_broken (ChainState.running s h t) = false

abbrev pub before : Chain → Sweep → Sweep
before c (all_good cs acc w k) = all_good (c ∷ cs) acc w k
before c (met_broken cs) = met_broken (c ∷ cs)

unfoldable pub sweep : (ℕ → ℕ) → ℕ → List Chain → TemperatureAccumulator → Bool → Sweep
unfolding tick get_temperature is_warming_up add_chain_temp
sweep clock k [] acc w = all_good [] acc w k
sweep clock k (chain ∷ chains) acc w =
    let state = tick chain.state (clock k) in
    let ticked : Chain = record chain { state = state } in
    let rest =
      sweep clock (k + 2) chains (add_chain_temp acc (get_temperature state))
        (w || is_warming_up state (clock (k + 1))) in
    if is_broken state then met_broken (ticked ∷ chains) else before ticked rest

module _ {P : Type 0} (lib : PidController P) where
  -- `new_and_start`, without the tasks that it starts.
  pub new_monitor : Config → Control → ℕ → MonitorInner P
  unfolding new_temp_control
  new_monitor config fan_control now = record {
    chains = [];
    config = config;
    fan_control = fan_control;
    current_fan_speed = none;
    pid = new_temp_control lib now;
    failure_state = false;
    status = none;
  }

  -- Sending the halt is commented out in the code.
  abbrev pub shutdown : MonitorInner P → MonitorInner P
  shutdown inner = record inner { failure_state = true }

  unfoldable pub set_fan_speed : MonitorInner P → Speed → Outcome (MonitorInner P)
  unfolding set_speed
  set_fan_speed inner fan_speed = set_speed inner.fan_control fan_speed >>= λ control.
      ok (record inner { fan_control = control; current_fan_speed = some fan_speed })

  unfoldable pub termination_handler : MonitorInner P → Outcome (MonitorInner P)
  unfolding set_fan_speed
  termination_handler inner =
      if inner.failure_state then set_fan_speed inner full_speed else set_fan_speed inner stopped

  unfoldable pub act :
      (ℕ → ℕ) → ℕ → Bool → ControlDecision → MonitorInner P → Outcome (MonitorInner P)
  unfolding set_fan_speed set_warm_up_limits set_normal_limits set_target update
  act clock k warming_up ControlDecision.shutdown inner = ok (shutdown inner)
  act clock k warming_up ControlDecision.nothing inner = ok inner
  act clock k warming_up (ControlDecision.use_fixed_speed speed) inner = set_fan_speed inner speed
  act clock k warming_up (ControlDecision.use_pid target input) inner =
      let limited =
        if inner.config.fans_on_while_warming_up && warming_up
        then set_warm_up_limits lib inner.pid
        else set_normal_limits lib inner.pid in
      update lib (set_target lib limited target) input (clock k) (clock (suc k)) >>= λ r.
      set_fan_speed (record inner { pid = r.0 }) r.1

  abbrev pub broadcast :
      TemperatureAccumulator → ControlDecisionExplained → Feedback → MonitorInner P → MonitorInner P
  broadcast acc e feedback inner = record inner {
    status = some (record {
      config = inner.config;
      fan_feedback = feedback;
      fan_speed = inner.current_fan_speed;
      input_temperature = calc_result acc;
      temperature_accumulator = acc;
      decision_explained = e;
    });
  }

  unfoldable pub after_sweep : (ℕ → ℕ) → Sweep → MonitorInner P → Outcome (MonitorInner P)
  unfolding read_feedback num_fans_running calc_result decide act
  after_sweep clock (met_broken chains) inner = ok (shutdown (record inner { chains = chains }))
  after_sweep clock (all_good chains acc warming_up k) inner =
      let feedback = read_feedback inner.fan_control in
      decide inner.config (num_fans_running feedback) (calc_result acc) >>= λ e.
      act clock k warming_up e.decision (record inner { chains = chains }) >>= λ done.
      ok (broadcast acc e feedback done)

  unfoldable pub do_tick : (ℕ → ℕ) → MonitorInner P → Outcome (MonitorInner P)
  unfolding sweep after_sweep
  do_tick clock inner = after_sweep clock (sweep clock 0 inner.chains new_accumulator false) inner

  pub register_hashchain : ℕ → MonitorInner P → MonitorInner P
  register_hashchain hashboard_idx inner = record inner {
    chains = inner.chains ++ (new_chain hashboard_idx ∷ []);
  }

  -- One message that `recv_task` receives for the chain that was registered as number `i`.
  pub receive : ℕ → ℕ → Message → MonitorInner P → MonitorInner P
  unfolding transition
  receive now i message inner = elim (get_elem? inner.chains i) [
    | none ↦ inner
    | some chain ↦ record inner {
      chains = set inner.chains i (record chain { state = transition chain.state now message });
    }
  ]
