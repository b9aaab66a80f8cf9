-- ===== src/Monitor/Safety.antt =====
-- What the rules of the fan controller in src/monitor.rs guarantee.
use kasop.Common.{
  ℕ, ◌<◌, ◌≡◌, refl, ◌≢◌, ◌↔◌, ◌⊎◌, inl, inr, Option, none, some, false, Outcome, ok, arith, ltb,
  if◌then◌else◌, Bool-cases, Option-cases,
}
use kasop.Common.Int.{ℤ, ◌≤ℤ◌, leb_ℤ}
use kasop.Fan.{full_speed}
use kasop.Monitor.Chain.{ChainTemperature}
use kasop.Monitor.Decision.{
  FanControlMode, FanControlConfig, TempControlConfig, Config, ControlDecision,
  ControlDecisionExplained, Reason, decide_mode, decide_fan_control, decide_mode_notemp,
  decide_fan_control_notemp, temp_danger, fan_danger, control_fans, decide_or, decide, explained,
  is_stopped,
}

-- The temperature calls for a shutdown.
abbrev pub IsDangerous : Option TempControlConfig → ChainTemperature → Type 0
IsDangerous none temp = ⊥
IsDangerous (some tc) ChainTemperature.failed = Unit {0}
IsDangerous (some tc) ChainTemperature.unknown = ⊥
IsDangerous (some tc) (ChainTemperature.ok t) = tc.dangerous_temp ≤ℤ t

-- What a configuration asks of the fans at a temperature that is no danger.
abbrev pub wanted : FanControlMode → Option TempControlConfig → ChainTemperature → ControlDecision
wanted m none temp = elim m [
  | FanControlMode.fixed_speed s ↦ ControlDecision.use_fixed_speed s
  | FanControlMode.target_temperature t ↦ ControlDecision.use_fixed_speed full_speed
]
wanted m (some tc) ChainTemperature.unknown = ControlDecision.use_fixed_speed full_speed
wanted m (some tc) ChainTemperature.failed = ControlDecision.shutdown
wanted m (some tc) (ChainTemperature.ok x) = elim m [
  | FanControlMode.fixed_speed s ↦ ControlDecision.use_fixed_speed s
  | FanControlMode.target_temperature t ↦
      if leb_ℤ tc.hot_temp x
      then ControlDecision.use_fixed_speed full_speed
      else ControlDecision.use_pid t x
]

-- Fewer fans turn than are needed, and the fans are not asked to stand still.
abbrev pub LacksFans : FanControlConfig → Option TempControlConfig → ℕ → ChainTemperature → Type 0
LacksFans fc tc n temp = (n < fc.min_fans) × (is_stopped (wanted fc.mode tc temp) ≡ false)

abbrev pub Decides : Outcome ControlDecisionExplained → ControlDecision → Type 0
Decides o d = (reason : Reason) × (o ≡ ok (explained d reason))

decide_mode-wanted :
    (m : FanControlMode) (tc : TempControlConfig) (t : ℤ)
    → Decides
        (decide_mode m tc (ChainTemperature.ok t))
        (wanted m (some tc) (ChainTemperature.ok t))
unfolding decide_mode
decide_mode-wanted (FanControlMode.fixed_speed s) tc t = (_, refl)
decide_mode-wanted (FanControlMode.target_temperature u) tc t =
    elim (Bool-cases (leb_ℤ tc.hot_temp t)) [
      | inl e ↦ (Reason.temperature_above_hot, rw (e, if◌then◌else◌))
      | inr e ↦ (Reason.user_requested_pid, rw (e, if◌then◌else◌))
    ]

decide_mode_notemp-wanted :
    (m : FanControlMode) (temp : ChainTemperature)
    → (r : Reason) × (decide_mode_notemp m ≡ explained (wanted m none temp) r)
unfolding decide_mode_notemp
decide_mode_notemp-wanted (FanControlMode.fixed_speed s) temp = (_, refl)
decide_mode_notemp-wanted (FanControlMode.target_temperature u) temp = (_, refl)

-- Where the temperature is no danger, the fans get what the configuration asks, if enough turn.
control_fans-wanted :
    (fc : FanControlConfig) (tc : Option TempControlConfig) (n : ℕ) (temp : ChainTemperature)
    → ¬ IsDangerous tc temp
    → (r : Reason) × (control_fans (some fc) tc n temp
        ≡ ok (fan_danger fc n (explained (wanted fc.mode tc temp) r)))
unfolding control_fans decide_fan_control decide_fan_control_notemp
control_fans-wanted fc none n temp h =
    let (r, e) = decide_mode_notemp-wanted fc.mode temp in (r, rw e)
control_fans-wanted fc (some tc) n ChainTemperature.failed h = absurd (h tt)
control_fans-wanted fc (some tc) n ChainTemperature.unknown h = (_, refl)
control_fans-wanted fc (some tc) n (ChainTemperature.ok t) h =
    let (r, e) = decide_mode-wanted fc.mode tc t in (r, rw e)

pub temp_danger-safe :
    (tc : Option TempControlConfig) (temp : ChainTemperature)
    → (IsDangerous tc temp × ((r : Reason) × (temp_danger tc temp ≡ some r)))
      ⊎ ((¬ IsDangerous tc temp) × (temp_danger tc temp ≡ none))
unfolding temp_danger
temp_danger-safe none temp = inr (λ h. h, refl)
temp_danger-safe (some tc) ChainTemperature.failed = inl (tt, (_, refl))
temp_danger-safe (some tc) ChainTemperature.unknown = inr (λ h. h, refl)
temp_danger-safe (some tc) (ChainTemperature.ok t) = elim (Bool-cases (leb_ℤ tc.dangerous_temp t)) [
  | inl e ↦ inl (ground arith, (Reason.temperature_above_dangerous, rw e))
  | inr e ↦ inr (ground arith, rw e)
]

fan_danger-cases :
    (fc : FanControlConfig) (n : ℕ) (d : ControlDecision) (r : Reason)
    → ((n < fc.min_fans)
        × (is_stopped d ≡ false)
        × (fan_danger fc n (explained d r)
            ≡ explained ControlDecision.shutdown Reason.not_enough_fans))
      ⊎ ((¬ ((n < fc.min_fans) × (is_stopped d ≡ false)))
          × (fan_danger fc n (explained d r) ≡ explained d r))
unfolding fan_danger
fan_danger-cases fc n d r = elim (Bool-cases (is_stopped d)) [
  | inl e ↦ inr (λ h. cc, rw e)
  | inr e ↦ elim (Bool-cases (ltb n fc.min_fans)) [
    | inl f ↦ inl (ground arith, e, rw (e, f))
    | inr f ↦ inr (λ h. ground arith, rw (e, f))
  ]
]

decide_or-rest :
    (config : Config) (n : ℕ) (temp : ChainTemperature)
    → ¬ IsDangerous config.temp_config temp
    → decide config n temp ≡ control_fans config.fan_config config.temp_config n temp
unfolding decide decide_or
decide_or-rest config n temp h = elim (temp_danger-safe config.temp_config temp) [
  | inl (d, _) ↦ absurd (h d)
  | inr (_, e) ↦ rw e
]

-- A dangerous temperature shuts the miner down, whatever the fans do and however they are
-- configured.
pub decide_dangerous :
    (config : Config) (n : ℕ) (temp : ChainTemperature)
    → IsDangerous config.temp_config temp
    → Decides (decide config n temp) ControlDecision.shutdown
unfolding decide decide_or
decide_dangerous config n temp h = elim (temp_danger-safe config.temp_config temp) [
  | inl (_, (r, e)) ↦ (r, rw e)
  | inr (safe, _) ↦ absurd (safe h)
]

-- Without a dangerous temperature: no fan control, no action; fans missing, shutdown; and
-- otherwise what the configuration asks.
pub decide_safe :
    (config : Config) (fc : FanControlConfig) (n : ℕ) (temp : ChainTemperature)
    → config.fan_config ≡ some fc
    → ¬ IsDangerous config.temp_config temp
    → (LacksFans fc config.temp_config n temp
        × Decides (decide config n temp) ControlDecision.shutdown)
      ⊎ ((¬ LacksFans fc config.temp_config n temp)
          × Decides (decide config n temp) (wanted fc.mode config.temp_config temp))
decide_safe config fc n temp with_fans h =
    let (r, e) = control_fans-wanted fc config.temp_config n temp h in
    rw (decide_or-rest config n temp h, with_fans, e)
      (elim (fan_danger-cases fc n (wanted fc.mode config.temp_config temp) r) [
        | inl (few, runs, f) ↦ inl ((few, runs), (Reason.not_enough_fans, rw f))
        | inr (enough, f) ↦ inr (enough, (r, rw f))
      ])

pub without_fans :
    (config : Config) (n : ℕ) (temp : ChainTemperature)
    → config.fan_config ≡ none
    → ¬ IsDangerous config.temp_config temp
    → Decides (decide config n temp) ControlDecision.nothing
unfolding control_fans
without_fans config n temp e h = (Reason.no_action, rw (decide_or-rest config n temp h, e))

-- The rules give a decision for every configuration, feedback and temperature: the `panic!` in
-- `decide_fan_control` is not reached.
pub decide_total :
    (config : Config) (n : ℕ) (temp : ChainTemperature)
    → (e : ControlDecisionExplained) × (decide config n temp ≡ ok e)
decide_total config n temp = elim (temp_danger-safe config.temp_config temp) [
  | inl (d, _) ↦ let (r, e) = decide_dangerous config n temp d in (_, e)
  | inr (h, _) ↦ elim (Option-cases config.fan_config) [
    | inl none_there ↦ let (r, e) = without_fans config n temp none_there h in (_, e)
    | inr (fc, there) ↦ elim (decide_safe config fc n temp there h) [
      | inl (_, (r, e)) ↦ (_, e)
      | inr (_, (r, e)) ↦ (_, e)
    ]
  ]
]

pub Decides-unique :
    (o : Outcome ControlDecisionExplained) (d e : ControlDecision)
    → Decides o d
    → Decides o e
    → d ≡ e
Decides-unique o d e (r, p) (s, q) = cc

wanted-shutdown :
    (m : FanControlMode) (tc : Option TempControlConfig) (temp : ChainTemperature)
    → ¬ IsDangerous tc temp
    → wanted m tc temp ≢ ControlDecision.shutdown
wanted-shutdown (FanControlMode.fixed_speed s) none temp h e = cc
wanted-shutdown (FanControlMode.target_temperature t) none temp h e = cc
wanted-shutdown m (some tc) ChainTemperature.unknown h e = cc
wanted-shutdown m (some tc) ChainTemperature.failed h e = h tt
wanted-shutdown (FanControlMode.fixed_speed s) (some tc) (ChainTemperature.ok x) h e = cc
wanted-shutdown (FanControlMode.target_temperature t) (some tc) (ChainTemperature.ok x) h e =
    ground arith

-- The miner is shut down exactly if the temperature is dangerous, or if fans are controlled, fewer
-- than the minimum turn, and they are not asked to stand still.
pub decide-shutdown :
    (config : Config) (n : ℕ) (temp : ChainTemperature)
    → Decides (decide config n temp) ControlDecision.shutdown ↔ (
        IsDangerous config.temp_config temp
        ⊎ ((fc : FanControlConfig) × (config.fan_config ≡ some fc)
            × LacksFans fc config.temp_config n temp))
decide-shutdown config n temp = (there, back)
  where
    there :
        Decides (decide config n temp) ControlDecision.shutdown
        → IsDangerous config.temp_config temp
          ⊎ ((fc : FanControlConfig) × (config.fan_config ≡ some fc)
              × LacksFans fc config.temp_config n temp)
    there d = elim (temp_danger-safe config.temp_config temp) [
      | inl (danger, _) ↦ inl danger
      | inr (h, _) ↦ elim (Option-cases config.fan_config) [
        | inl none_there ↦
            let e = Decides-unique _ _ _ d (without_fans config n temp none_there h) in absurd (cc)
        | inr (fc, known) ↦ elim (decide_safe config fc n temp known h) [
          | inl (few, _) ↦ inr (fc, known, few)
          | inr (_, other) ↦ absurd (wanted-shutdown _ _ _ h (Decides-unique _ _ _ other d))
        ]
      ]
    ]

    back :
        IsDangerous config.temp_config temp
          ⊎ ((fc : FanControlConfig) × (config.fan_config ≡ some fc)
              × LacksFans fc config.temp_config n temp)
        → Decides (decide config n temp) ControlDecision.shutdown
    back (inl danger) = decide_dangerous config n temp danger
    back (inr (fc, there, few)) = elim (temp_danger-safe config.temp_config temp) [
      | inl (danger, _) ↦ decide_dangerous config n temp danger
      | inr (h, _) ↦ elim (decide_safe config fc n temp there h) [
        | inl (_, d) ↦ d
        | inr (enough, _) ↦ absurd (enough few)
      ]
    ]
