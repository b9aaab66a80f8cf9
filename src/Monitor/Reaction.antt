-- ===== src/Monitor/Reaction.antt =====
-- How a tick of the monitor in src/monitor.rs reacts.
use kasop.Common.{
  ℕ, suc, ◌+◌, ◌*◌, ◌%◌, ◌^◌, ◌≤◌, List, get_elem?, Option, none, some, Bool, true, false, ◌&&◌,
  leb, if◌then◌else◌, Outcome, ok, ◌≡◌, refl, sym, subst, ◌⊎◌, inl, inr, In, arith, Bool-cases,
}
use kasop.Common.Int.{◌≤ℤ◌}
use kasop.Fan.{Speed, full_speed, stopped, Control, set_speed, read_feedback, num_fans_running}
use kasop.Fan.TempControl.{PidController}
use kasop.Fan.Limits.{Limiting, update_bounds}
use kasop.Monitor.Chain.{ChainTemperature, Chain, tick, get_temperature}
use kasop.Monitor.Decision.{TempControlConfig, ControlDecision}
use kasop.Monitor.Safety.{IsDangerous, decide_dangerous, decide_total}
use kasop.Monitor.Speeds.{IsBounded, IsBoundedDecision, decide-IsBoundedDecision}
use kasop.Monitor.Aggregate.{
  TemperatureAccumulator, new_accumulator, calc_result, IsAggregate, calc_result-IsAggregate,
}
use kasop.Monitor.Tick.{
  Sweep, MonitorInner, sweep, is_broken, set_fan_speed, termination_handler, act, after_sweep,
  do_tick,
}
use kasop.Monitor.Sweep.{Saw, sweep-Saw, Ticked, chains_of, sweep-Ticked}

-- A tick ended in the failure state, with the fans as they were.
abbrev pub IsFailed : {P : Type 0} → MonitorInner P → Outcome (MonitorInner P) → Type 0
IsFailed {P} inner o =
    (done : MonitorInner P) × (o ≡ ok done)
    × (done.failure_state ≡ true)
    × (done.fan_control ≡ inner.fan_control)
    × (done.config ≡ inner.config)

IsDangerous-aggregate :
    (tc : Option TempControlConfig) (cts : List ChainTemperature) (t r : ChainTemperature)
    → IsAggregate cts r
    → In t cts
    → IsDangerous tc t
    → IsDangerous tc r
IsDangerous-aggregate none cts t r a i h = h
IsDangerous-aggregate (some tc) cts t ChainTemperature.failed a i h = tt
IsDangerous-aggregate (some tc) cts ChainTemperature.unknown r a i h = absurd h
IsDangerous-aggregate (some tc) cts ChainTemperature.failed ChainTemperature.unknown a i h = a.0 i
IsDangerous-aggregate (some tc) cts (ChainTemperature.ok t) ChainTemperature.unknown a i h = a.1 t i
IsDangerous-aggregate (some tc) cts ChainTemperature.failed (ChainTemperature.ok m) a i h =
    absurd (a.0 i)
IsDangerous-aggregate (some tc) cts (ChainTemperature.ok t) (ChainTemperature.ok m) a i h =
    let b : t ≤ℤ m = a.2 t i in omega arith

module _ {P : Type 0} (lib : PidController P) where
  after_sweep-broken :
      (clock : ℕ → ℕ) (inner : MonitorInner P) (cs : List Chain)
      → IsFailed inner (after_sweep lib clock (Sweep.met_broken cs) inner)
  unfolding after_sweep
  after_sweep-broken clock inner cs = (_, refl, refl, refl, refl)

  after_sweep-dangerous :
      (clock : ℕ → ℕ) (inner : MonitorInner P) (cs : List Chain) (acc : TemperatureAccumulator)
      (w : Bool) (k : ℕ)
      → IsDangerous inner.config.temp_config (calc_result acc)
      → IsFailed inner (after_sweep lib clock (Sweep.all_good cs acc w k) inner)
  unfolding after_sweep act
  after_sweep-dangerous clock inner cs acc w k h =
      let (r, e) =
        decide_dangerous inner.config (num_fans_running (read_feedback inner.fan_control))
          (calc_result acc) h in
      rw e (_, refl, refl, refl, refl)

  -- A chain that breaks at a tick, or was broken before, puts the monitor in the failure state, with
  -- the fans and the configuration as they were.
  pub do_tick_broken :
      (clock : ℕ → ℕ) (inner : MonitorInner P) (i : ℕ) (c : Chain)
      → get_elem? inner.chains i ≡ some c
      → is_broken (tick c.state (clock (2 * i))) ≡ true
      → IsFailed inner (do_tick lib clock inner)
  unfolding do_tick
  do_tick_broken clock inner i c there broken =
      go (sweep clock 0 inner.chains new_accumulator false)
        (sweep-Saw clock 0 inner.chains new_accumulator false)
    where
      go :
          (s : Sweep)
          → Saw clock 0 inner.chains new_accumulator s
          → IsFailed inner (after_sweep lib clock s inner)
      go (Sweep.met_broken cs) h = after_sweep-broken clock inner cs
      go (Sweep.all_good cs acc w k) h =
          let good = (h.2 i c there).0 in let same : 0 + 2 * i ≡ 2 * i = omega arith in absurd (cc)

  -- Where temperature limits are configured, a chain that is dangerously hot at a tick, or failed,
  -- puts the monitor in the failure state, with the fans and the configuration as they were.
  pub do_tick_dangerous :
      (clock : ℕ → ℕ) (inner : MonitorInner P) (i : ℕ) (c : Chain)
      → get_elem? inner.chains i ≡ some c
      → IsDangerous inner.config.temp_config (get_temperature (tick c.state (clock (2 * i))))
      → IsFailed inner (do_tick lib clock inner)
  unfolding do_tick
  do_tick_dangerous clock inner i c there hot =
      go (sweep clock 0 inner.chains new_accumulator false)
        (sweep-Saw clock 0 inner.chains new_accumulator false)
    where
      go :
          (s : Sweep)
          → Saw clock 0 inner.chains new_accumulator s
          → IsFailed inner (after_sweep lib clock s inner)
      go (Sweep.met_broken cs) h = after_sweep-broken clock inner cs
      go (Sweep.all_good cs acc w k) h = after_sweep-dangerous clock inner cs acc w k (
          IsDangerous-aggregate inner.config.temp_config acc.chain_temperatures _ (calc_result acc)
            (calc_result-IsAggregate acc) (h.2 i c there).1
            (let same : 0 + 2 * i ≡ 2 * i = omega arith in rw same hot))

  -- Terminated in the failure state, the monitor leaves the fans at full speed, and otherwise it
  -- stops them.
  pub termination_speed :
      (inner : MonitorInner P)
      → (done : MonitorInner P) × (termination_handler lib inner ≡ ok done)
        × (done.fan_control.fan_pwm ≡ (if inner.failure_state then 100 else 0))
        × (done.current_fan_speed ≡ some (if inner.failure_state then full_speed else stopped))
  unfolding termination_handler set_fan_speed set_speed
  termination_speed inner = elim (Bool-cases inner.failure_state) [
    | inl e ↦ rw e (_, refl, refl, refl)
    | inr e ↦ rw e (_, refl, refl, refl)
  ]

-- What a decision does: it keeps the configuration, the chains, and a failure; and it leaves the
-- fans, or sets a speed of at most 100 percent, which the register and `current_fan_speed` then
-- agree on.
abbrev pub IsAct : {P : Type 0} → MonitorInner P → MonitorInner P → Type 0
IsAct inner done =
    (done.config ≡ inner.config)
    × (done.chains ≡ inner.chains)
    × ((done.failure_state ≡ true) ⊎ (done.failure_state ≡ inner.failure_state))
    × (((done.fan_control ≡ inner.fan_control) × (done.current_fan_speed ≡ inner.current_fan_speed))
        ⊎ ((s : Speed) × (done.current_fan_speed ≡ some s)
            × (done.fan_control.fan_pwm ≡ s.pwm)
            × (s.pwm ≤ 100)))

-- What a tick does: the same, but for the chains, which it ticks as far as the first broken one.
abbrev pub IsTick : {P : Type 0} → (ℕ → ℕ) → MonitorInner P → MonitorInner P → Type 0
IsTick clock inner done =
    Ticked clock 0 inner.chains done.chains × IsAct (record inner { chains = done.chains }) done

set_speed-ok :
    (c : Control) (s : Speed) → s.pwm ≤ 100 → set_speed c s ≡ ok (record c { fan_pwm = s.pwm })
unfolding set_speed
set_speed-ok c s h =
    let e : s.pwm % 2 ^ 8 ≡ s.pwm = omega arith in
    let t : leb s.pwm 100 ≡ true = ground arith in rw (t, e)

module _ {P : Type 0} (lib : PidController P) where
  set_fan_speed-ok :
      (inner : MonitorInner P) (s : Speed)
      → s.pwm ≤ 100
      → set_fan_speed lib inner s
        ≡ ok (record inner {
          fan_control = record inner.fan_control { fan_pwm = s.pwm };
          current_fan_speed = some s;
        })
  unfolding set_fan_speed
  set_fan_speed-ok inner s h = rw (set_speed-ok inner.fan_control s h)

module _ {P : Type 0} (lib : PidController P) (limiting : Limiting lib) where
  act_total :
      (clock : ℕ → ℕ) (k : ℕ) (w : Bool) (d : ControlDecision) (inner : MonitorInner P)
      → IsBoundedDecision d
      → (done : MonitorInner P) × (act lib clock k w d inner ≡ ok done) × IsAct inner done
  unfolding act
  act_total clock k w ControlDecision.shutdown inner h =
      (_, refl, (refl, refl, inl refl, inl (refl, refl)))
  act_total clock k w ControlDecision.nothing inner h =
      (_, refl, (refl, refl, inr refl, inl (refl, refl)))
  act_total clock k w (ControlDecision.use_fixed_speed s) inner h =
      (_, set_fan_speed-ok lib inner s h, (refl, refl, inr refl, inr (s, refl, refl, h)))
  act_total clock k w (ControlDecision.use_pid target input) inner h =
      let (r, e, low, high) =
        update_bounds lib limiting inner.pid (inner.config.fans_on_while_warming_up && w) target
          input (clock k) (clock (suc k)) in
      rw e (
        _,
        set_fan_speed-ok lib (record inner { pid = r.0 }) r.1 high,
        (refl, refl, inr refl, inr (r.1, refl, refl, high)),
      )

  after_sweep_total :
      (clock : ℕ → ℕ) (inner : MonitorInner P) (s : Sweep)
      → Ticked clock 0 inner.chains (chains_of s)
      → IsBounded inner.config.fan_config
      → (done : MonitorInner P) × (after_sweep lib clock s inner ≡ ok done)
        × IsTick clock inner done
  unfolding after_sweep
  after_sweep_total clock inner (Sweep.met_broken cs) ticked h =
      (_, refl, (ticked, (refl, refl, inl refl, inl (refl, refl))))
  after_sweep_total clock inner (Sweep.all_good cs acc w k) ticked h =
      let n = num_fans_running (read_feedback inner.fan_control) in
      let (e, decided) = decide_total inner.config n (calc_result acc) in
      let bounded = decide-IsBoundedDecision inner.config n (calc_result acc) e h decided in
      let (done, acted, (kept, count, failing, fans)) =
        act_total clock k w e.decision (record inner { chains = cs }) bounded in
      rw (decided, acted)
        (
          _,
          refl,
          (subst (Ticked clock 0 inner.chains) (sym count) ticked, (kept, refl, failing, fans)),
        )

  -- For every controller that keeps its limits and every configuration with a fixed speed of at
  -- most 100 percent, a tick does not panic. It ticks the chains in order, each at its time, up to
  -- the first that is then broken, and leaves those behind it as they were; it keeps the
  -- configuration, and a failure; and it leaves the fans, or sets a speed of at most 100 percent,
  -- which the register and `current_fan_speed` then agree on.
  pub do_tick_total :
      (clock : ℕ → ℕ) (inner : MonitorInner P)
      → IsBounded inner.config.fan_config
      → (done : MonitorInner P) × (do_tick lib clock inner ≡ ok done) × IsTick clock inner done
  unfolding do_tick
  do_tick_total clock inner h =
      after_sweep_total clock inner _ (sweep-Ticked clock 0 inner.chains new_accumulator false) h
