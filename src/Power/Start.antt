-- ===== src/Power/Start.antt =====
-- Setting the voltage, and what holds behind the start of a controller.
use kasop.Common.{
  ℕ, true, Option, none, some, Outcome, ok, err, panic, ErrorKind, require, ◌==◌, if◌then◌else◌,
  ◌≡◌, ◌≢◌, ◌⊎◌, inl, inr, refl, sym, ap, ◌∙◌, arith, Bool-cases, [], ◌∷◌,
}
use kasop.Common.Actions.{continue, continue-ok, return}
use kasop.Power.{AsyncI2cDev, expected_voltage_ctrl_version, set_voltage_command}
use kasop.Power.Voltage.{Voltage}
use kasop.Power.Firmware.{PicProgram}
use kasop.Power.Control.{write, program_pic, enable_voltage}
use kasop.Power.Startup.{
  Control, keep, backend, set_current, is_current, set_voltage, reset_and_start_app, reload, init,
}

-- What a run on the backend keeps of the controller.
pub record KeepsFields {B : Type 0} (c d : Control B) : Type 0 where
  pub voltage : d.current_voltage ≡ c.current_voltage
  pub beat : d.heart_beat ≡ c.heart_beat

keep-KeepsFields :
    {B A : Type 0} (c : Control B) (r : B × Outcome A) {d : Control B} {o : Outcome A}
    → keep c r ≡ (d, o)
    → KeepsFields c d × (r ≡ (d.i2c, o))
keep-KeepsFields c (s, o') h = (
  record { voltage = λ i. (sym h i).0.current_voltage; beat = λ i. (sym h i).0.heart_beat },
  λ i. ((h i).0.i2c, (h i).1),
)

is_current-eq : (o : Option Voltage) (v : Voltage) → is_current o v ≡ true → o ≡ some v
unfolding is_current
is_current-eq none v h = cc
is_current-eq (some u) v h = ground arith

same_is_current : (v : Voltage) → is_current (some v) v ≡ true
unfolding is_current
same_is_current v = ground arith

module _ {B : Type 0} (inner : AsyncI2cDev B) (hashboard_idx : ℕ) where
  sent :
      (v : Voltage) (c : Control B) (r : B × Outcome (Unit {0})) (d : Control B)
      → continue (keep c r) (λ done. set_current v) ≡ (d, ok tt)
      → d.current_voltage ≡ some v
  sent v c (s, ok done) d h = λ i. (sym h i).0.current_voltage
  sent v c (s, err kind) d h =
      let e : ◌≡◌ {A = Outcome (Unit {0})} (err kind) (ok tt) = λ i. (h i).1 in absurd (cc)
  sent v c (s, panic) d h =
      let e : ◌≡◌ {A = Outcome (Unit {0})} panic (ok tt) = λ i. (h i).1 in absurd (cc)

  set_voltage_current :
      (v : Voltage) (c d : Control B)
      → set_voltage inner hashboard_idx v c ≡ (d, ok tt)
      → d.current_voltage ≡ some v
  unfolding set_voltage
  set_voltage_current v c d h = elim (Bool-cases (is_current c.current_voltage v)) [
    | inl same ↦
        let e : ◌≡◌ {A = Control B × Outcome (Unit {0})} (c, ok tt) (d, ok tt) = rw same at h in
        (λ i. (sym e i).0.current_voltage) ∙ is_current-eq c.current_voltage v same
    | inr other ↦
        sent v c (write inner hashboard_idx set_voltage_command (v.pic ∷ []) c.i2c) d
          (rw other at h)
  ]

  -- A voltage that is set without an error is remembered, and setting it again sends nothing.
  pub set_voltage_again :
      (v : Voltage) (c d : Control B)
      → set_voltage inner hashboard_idx v c ≡ (d, ok tt)
      → (d.current_voltage ≡ some v) × (set_voltage inner hashboard_idx v d ≡ (d, ok tt))
  unfolding set_voltage
  set_voltage_again v c d h =
      let known = set_voltage_current v c d h in (known, rw (known, same_is_current v) refl)

  -- From `c` on, a start of the loader and application at which the expected version was read, and
  -- which left `d`.
  abbrev pub Started : Control B → Control B → Type 0
  Started c d = reset_and_start_app inner hashboard_idx c ≡ (d, ok expected_voltage_ctrl_version)

  -- From `c` on, the PIC was programmed and then started as expected.
  abbrev pub Reloaded : Outcome PicProgram → Control B → Control B → Type 0
  Reloaded read_firmware c d =
      (program : PicProgram) × (b : Control B) × (read_firmware ≡ ok program)
      × (backend (program_pic inner hashboard_idx program) c ≡ (b, ok tt))
      × Started b d

  -- The start from `c` was right at once, or another version was read and the PIC was reloaded.
  abbrev pub RightVersion : Outcome PicProgram → Control B → Control B → Type 0
  RightVersion read_firmware c d =
      Started c d
      ⊎ ((version : ℕ) × (b : Control B) × (reset_and_start_app inner hashboard_idx c
            ≡ (b, ok version))
          × (version ≢ expected_voltage_ctrl_version)
          × Reloaded read_firmware b d)

  -- From `c` to `d`, the voltage was sent to the PIC, unless it is the one that is remembered.
  abbrev pub VoltageSent : Voltage → Control B → Control B → Type 0
  VoltageSent v c d =
      ((c.current_voltage ≡ some v) × (d ≡ c))
      ⊎ (write inner hashboard_idx set_voltage_command (v.pic ∷ []) c.i2c ≡ (d.i2c, ok tt))

  written :
      (v : Voltage) (c : Control B) (r : B × Outcome (Unit {0})) (d : Control B)
      → continue (keep c r) (λ done. set_current v) ≡ (d, ok tt)
      → r ≡ (d.i2c, ok tt)
  written v c (s, ok done) d h = λ i. ((h i).0.i2c, ok tt)
  written v c (s, err kind) d h =
      let e : ◌≡◌ {A = Outcome (Unit {0})} (err kind) (ok tt) = λ i. (h i).1 in absurd (cc)
  written v c (s, panic) d h =
      let e : ◌≡◌ {A = Outcome (Unit {0})} panic (ok tt) = λ i. (h i).1 in absurd (cc)

  set_voltage-VoltageSent :
      (v : Voltage) (c d : Control B)
      → set_voltage inner hashboard_idx v c ≡ (d, ok tt)
      → VoltageSent v c d
  unfolding set_voltage
  set_voltage-VoltageSent v c d h = elim (Bool-cases (is_current c.current_voltage v)) [
    | inl same ↦
        let e : ◌≡◌ {A = Control B × Outcome (Unit {0})} (c, ok tt) (d, ok tt) = rw same at h in
        inl (is_current-eq c.current_voltage v same, λ i. (sym e i).0)
    | inr other ↦ inr (
        written v c (write inner hashboard_idx set_voltage_command (v.pic ∷ []) c.i2c) d
          (rw other at h))
  ]

  module _ (read_firmware : Outcome PicProgram) (open_core_voltage : Voltage) where
    reload-Reloaded :
        (c d : Control B)
        → reload inner hashboard_idx read_firmware c ≡ (d, ok tt)
        → Reloaded read_firmware c d
    unfolding reload
    reload-Reloaded c d h =
        let (s1, program, r1, rest1) = continue-ok (c, read_firmware) _ h in
        let (s2, done, r2, rest2) =
          continue-ok (backend (program_pic inner hashboard_idx program) s1) _ rest1 in
        let (s3, version, r3, rest3) =
          continue-ok (reset_and_start_app inner hashboard_idx s2) _ rest2 in
        let e = required version s3 d rest3 in
        (
          program,
          s2,
          λ i. (r1 i).1,
          (λ i. backend (program_pic inner hashboard_idx program) (r1 i).0) ∙ r2,
          r3 ∙ λ i. ((rest3 i).0, ok (e i)),
        )
      where
        required :
            (version : ℕ) (s t : Control B)
            → ◌≡◌ {A = Control B × Outcome (Unit {0})}
                (s, require (version == 3) ErrorKind.unexpected_version)
                (t, ok tt)
            → version ≡ 3
        required version s t e =
            let e' : require (version == 3) ErrorKind.unexpected_version ≡ ok tt = λ i. (e i).1 in
            ground arith

    checked :
        (version : ℕ) (c s d : Control B)
        → reset_and_start_app inner hashboard_idx c ≡ (s, ok version)
        → (if version == expected_voltage_ctrl_version
              then return {S = Control B} tt
              else reload inner hashboard_idx read_firmware)
            s
          ≡ (d, ok tt)
        → RightVersion read_firmware c d
    checked version c s d read h = elim (Bool-cases (version == 3)) [
      | inl right ↦
          let e : version ≡ 3 = ground arith in
          let same : ◌≡◌ {A = Control B × Outcome (Unit {0})} (s, ok tt) (d, ok tt) =
            rw right at h in
          inl (read ∙ λ i. ((same i).0, ok (e i)))
      | inr wrong ↦ inr (version, s, read, (ground arith), reload-Reloaded s d (rw wrong at h))
    ]

    -- `init` ends well only if a start of this run read the expected version: the first one, or the
    -- one behind the programming of the PIC with the file that was read. In the state behind it the
    -- voltage was sent, or was the one remembered, then the power was switched on, with no other
    -- traffic on the bus; the voltage is remembered, and the heart beat runs.
    pub init-ok :
        (c d : Control B)
        → init inner hashboard_idx read_firmware open_core_voltage c ≡ (d, ok tt)
        → (s : Control B) × (t : Control B) × RightVersion read_firmware c s
          × VoltageSent open_core_voltage s t
          × (enable_voltage inner hashboard_idx t.i2c ≡ (d.i2c, ok tt))
          × (d.heart_beat ≡ true)
          × (d.current_voltage ≡ some open_core_voltage)
    unfolding init
    init-ok c d h =
        let (s1, version, r1, rest1) =
          continue-ok (reset_and_start_app inner hashboard_idx c) _ h in
        let (s2, _, r2, rest2) =
          continue-ok
            ((if version == expected_voltage_ctrl_version
                then return {S = Control B} tt
                else reload inner hashboard_idx read_firmware)
              s1)
            _ rest1 in
        let (s3, _, r3, rest3) =
          continue-ok (set_voltage inner hashboard_idx open_core_voltage s2) _ rest2 in
        let (s4, _, r4, rest4) =
          continue-ok (backend (enable_voltage inner hashboard_idx) s3) _ rest3 in
        let kept = keep-KeepsFields s3 (enable_voltage inner hashboard_idx s3.i2c) r4 in
        (
          s2,
          s3,
          checked version c s1 s2 r1 r2,
          set_voltage-VoltageSent open_core_voltage s2 s3 r3,
          kept.1 ∙ ap (λ t. (t, ok tt)) (λ i. (rest4 i).0.i2c),
          λ i. (sym rest4 i).0.heart_beat,
          (λ i. (sym rest4 i).0.current_voltage)
              ∙ kept.0.voltage
              ∙ set_voltage_current open_core_voltage s2 s3 r3,
        )
