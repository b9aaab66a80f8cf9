-- ===== src/Monitor/Speeds.antt =====
-- When the rules of src/monitor.rs leave the fans to the PID, and how fast they let them turn.
use kasop.Common.{
  ℕ, ap, subst, ◌≤◌, ◌<◌, ◌≡◌, refl, inl, inr, Option, none, some, Bool, false, Outcome, ok, arith,
  Bool-cases, Option-cases, dec_lt,
}
use kasop.Common.Int.{ℤ, ◌<ℤ◌, leb_ℤ}
use kasop.Fan.{full_speed}
use kasop.Monitor.Chain.{ChainTemperature}
use kasop.Monitor.Decision.{
  FanControlMode, FanControlConfig, TempControlConfig, Config, ControlDecision,
  ControlDecisionExplained, decide, is_stopped,
}
use kasop.Monitor.Safety.{
  IsDangerous, wanted, Decides, Decides-unique, temp_danger-safe, without_fans, decide_safe,
  decide_dangerous,
}

wanted-pid :
    (m : FanControlMode) (tc : Option TempControlConfig) (temp : ChainTemperature)
    (target input : ℤ)
    → wanted m tc temp ≡ ControlDecision.use_pid target input
    → (c : TempControlConfig) × (tc ≡ some c)
      × (temp ≡ ChainTemperature.ok input)
      × (m ≡ FanControlMode.target_temperature target)
      × (input <ℤ c.hot_temp)
wanted-pid (FanControlMode.fixed_speed s) none temp target input e = absurd (cc)
wanted-pid (FanControlMode.target_temperature t) none temp target input e = absurd (cc)
wanted-pid m (some tc) ChainTemperature.unknown target input e = absurd (cc)
wanted-pid m (some tc) ChainTemperature.failed target input e = absurd (cc)
wanted-pid (FanControlMode.fixed_speed s) (some tc) (ChainTemperature.ok x) target input e =
    absurd (cc)
wanted-pid (FanControlMode.target_temperature t) (some tc) (ChainTemperature.ok x) target input e =
    elim (Bool-cases (leb_ℤ tc.hot_temp x)) [
      | inl b ↦
          let f : ControlDecision.use_fixed_speed full_speed
              ≡ ControlDecision.use_pid target input =
            rw b at e in
          absurd (cc)
      | inr b ↦
          let f : ControlDecision.use_pid t x ≡ ControlDecision.use_pid target input = rw b at e in
          let same : x ≡ input = cc in (tc, refl, cc, cc, rw (← same) (ground arith))
    ]

enough_turn : (n m : ℕ) (b : Bool) → ¬ ((n < m) × (b ≡ false)) → b ≡ false → m ≤ n
enough_turn n m b h e = elim (dec_lt n m) [ yes few ↦ absurd (h (few, e)) | no many ↦ omega arith ]

-- The fans are left to the PID only at a measured temperature below `hot_temp` that is not
-- dangerous, with the target that is configured, and with enough fans turning.
pub decide_pid :
    (config : Config) (fc : FanControlConfig) (n : ℕ) (temp : ChainTemperature) (target input : ℤ)
    → config.fan_config ≡ some fc
    → Decides (decide config n temp) (ControlDecision.use_pid target input)
    → (c : TempControlConfig) × (config.temp_config ≡ some c)
      × (temp ≡ ChainTemperature.ok input)
      × (fc.mode ≡ FanControlMode.target_temperature target)
      × (input <ℤ c.hot_temp)
      × (fc.min_fans ≤ n)
      × (¬ IsDangerous config.temp_config temp)
decide_pid config fc n temp target input there d = elim (temp_danger-safe config.temp_config temp) [
  | inl (danger, _) ↦
      let e = Decides-unique _ _ _ d (decide_dangerous config n temp danger) in absurd (cc)
  | inr (h, _) ↦ elim (decide_safe config fc n temp there h) [
    | inl (_, other) ↦ let e = Decides-unique _ _ _ d other in absurd (cc)
    | inr (enough, other) ↦
        let e = Decides-unique _ _ _ other d in
        let (c, known, measured, mode, below) = wanted-pid _ _ _ _ _ e in
        (c, known, measured, mode, below, enough_turn _ _ _ enough (ap is_stopped e), h)
  ]
]

-- Speeds of at most 100 percent, in a configuration and in a decision.
abbrev pub IsBoundedMode : FanControlMode → Type 0
IsBoundedMode (FanControlMode.fixed_speed s) = s.pwm ≤ 100
IsBoundedMode (FanControlMode.target_temperature t) = Unit {0}

abbrev pub IsBounded : Option FanControlConfig → Type 0
IsBounded none = Unit {0}
IsBounded (some fc) = IsBoundedMode fc.mode

abbrev pub IsBoundedDecision : ControlDecision → Type 0
IsBoundedDecision (ControlDecision.use_fixed_speed s) = s.pwm ≤ 100
IsBoundedDecision ControlDecision.shutdown = Unit {0}
IsBoundedDecision ControlDecision.nothing = Unit {0}
IsBoundedDecision (ControlDecision.use_pid _ _) = Unit {0}

wanted-IsBoundedDecision :
    (m : FanControlMode) (tc : Option TempControlConfig) (temp : ChainTemperature)
    → IsBoundedMode m
    → IsBoundedDecision (wanted m tc temp)
wanted-IsBoundedDecision (FanControlMode.fixed_speed s) none temp h = h
wanted-IsBoundedDecision (FanControlMode.target_temperature t) none temp h = omega arith
wanted-IsBoundedDecision m (some tc) ChainTemperature.unknown h = omega arith
wanted-IsBoundedDecision m (some tc) ChainTemperature.failed h = tt
wanted-IsBoundedDecision (FanControlMode.fixed_speed s) (some tc) (ChainTemperature.ok x) h = h
wanted-IsBoundedDecision (FanControlMode.target_temperature t) (some tc) (ChainTemperature.ok x) h =
    elim (Bool-cases (leb_ℤ tc.hot_temp x)) [ inl e ↦ rw e (omega arith) | inr e ↦ rw e tt ]

Decides-decision :
    (o : Outcome ControlDecisionExplained) (d : ControlDecision) (e : ControlDecisionExplained)
    → o ≡ ok e
    → Decides o d
    → d ≡ e.decision
Decides-decision o d e p (r, q) = cc

-- A decision sets no speed over 100 percent if the configuration does not.
pub decide-IsBoundedDecision :
    (config : Config) (n : ℕ) (temp : ChainTemperature) (e : ControlDecisionExplained)
    → IsBounded config.fan_config
    → decide config n temp ≡ ok e
    → IsBoundedDecision e.decision
decide-IsBoundedDecision config n temp e h p = elim (temp_danger-safe config.temp_config temp) [
  | inl (danger, _) ↦ settle ControlDecision.shutdown tt (decide_dangerous config n temp danger)
  | inr (safe, _) ↦ elim (Option-cases config.fan_config) [
    | inl none_there ↦
        settle ControlDecision.nothing tt (without_fans config n temp none_there safe)
    | inr (fc, there) ↦ elim (decide_safe config fc n temp there safe) [
      | inl (_, d) ↦ settle ControlDecision.shutdown tt d
      | inr (_, d) ↦
          settle _
            (wanted-IsBoundedDecision fc.mode config.temp_config temp (subst IsBounded there h)) d
    ]
  ]
]
  where
    settle :
        (d : ControlDecision)
        → IsBoundedDecision d
        → Decides (decide config n temp) d
        → IsBoundedDecision e.decision
    settle d b q = subst IsBoundedDecision (Decides-decision _ d e p q) b
