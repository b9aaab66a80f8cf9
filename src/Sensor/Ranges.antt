-- ===== src/Sensor/Ranges.antt =====
-- The temperatures that the drivers of src/sensor report.
use kasop.Common.{
  ℕ, ◌+◌, ◌-◌, ◌*◌, ◌/◌, ◌%◌, ◌<◌, assert, leb, Option, none, some, Bool, true, false, bit_and,
  ◌==◌, if◌then◌else◌, Bool-cases, ok, ◌≡◌, subst, inl, inr, arith, Outcome, err, panic,
}
use kasop.Common.Int.{pos, negsuc, sub_ℕ_parts, ◌≤ℤ◌, ◌<ℤ◌}
use kasop.Common.Actions.{continue-ok, lift}
use kasop.I2c.{Address, AsyncBus, Device, read}
use kasop.Sensor.{Measurement, Temperature}
use kasop.Sensor.Tmp451.{make_temp, remote_measurement, read_both, read_local, read_fract}
use kasop.Sensor.Tmp42x.{
  RegTempLowByte, Tmp42x, compare_first, invalid, measure, new_tmp42x, placed, read_one_sensor,
  read_or_discard, read_valid, unpack_low_byte,
}
use kasop.Sensor.Tmp42x
use kasop.Sensor.Probe.{Sensor, read_temperature}

-- From -64 up to 192 degrees.
abbrev pub InRange : Measurement → Type 0
InRange (Measurement.ok t) = (negsuc (64 * 256 - 1) ≤ℤ t) × (t <ℤ pos (192 * 256))
InRange Measurement.not_present = Unit {0}
InRange Measurement.invalid_reading = Unit {0}
InRange Measurement.open_circuit = Unit {0}
InRange Measurement.short_circuit = Unit {0}

make_temp-InRange :
    (whole fract : ℕ) → whole < 256 → fract < 256 → InRange (Measurement.ok (make_temp whole fract))
unfolding make_temp
make_temp-InRange whole fract h k =
    let parts = sub_ℕ_parts (whole * 256 + fract) (64 * 256) in (omega arith, omega arith)

remote_measurement-InRange :
    (status whole fract : ℕ)
    → whole < 256
    → fract < 256
    → InRange (remote_measurement status whole fract)
unfolding remote_measurement
remote_measurement-InRange status whole fract h k = elim (Bool-cases (bit_and status 4 == 0)) [
  | inl e ↦ elim (Bool-cases (whole == 0)) [
    | inl f ↦ rw (e, f) tt
    | inr f ↦ rw (e, f) (make_temp-InRange whole fract h k)
  ]
  | inr e ↦ rw e tt
]

measure-InRange : (high low : ℕ) → high < 256 → InRange (measure high (unpack_low_byte low))
unfolding measure
measure-InRange high low h = elim (Bool-cases (low / 2 % 2 == 1)) [
  | inl e ↦ rw e tt
  | inr e ↦ elim (Bool-cases (low % 2 == 1)) [
    | inl f ↦ rw (e, f) tt
    | inr f ↦ elim (Bool-cases (high == 0)) [
      | inl g ↦ rw (e, f, g) tt
      | inr g ↦
          let parts = sub_ℕ_parts (high * 256 + low / 16 % 16 * 16) (64 * 256) in
          rw (e, f, g) (omega arith, omega arith)
    ]
  ]
]

-- What is read from a bus is a `u8`.
abbrev pub ReadsBytes : {B : Type 0} → AsyncBus B → Type 0
ReadsBytes {B} bus =
    (a : Address) (reg : ℕ) (b b' : B) (v : ℕ) → bus.read a reg b ≡ (b', ok v) → v < 256

module _ {B : Type 0} (bus : AsyncBus B) (bytes : ReadsBytes bus) where
  read_fract-lt :
      (d : Device) (use_fract : Bool) (reg : ℕ) (b b' : B) (v : ℕ)
      → read_fract bus d use_fract reg b ≡ (b', ok v)
      → v < 256
  read_fract-lt d true reg b b' v h = bytes d.address reg b b' v h
  read_fract-lt d false reg b b' v h = let e : ok 0 ≡ ok v = λ i. (h i).1 in ground arith

  ok-eq : (t u : Temperature) → ok t ≡ ok u → t ≡ u
  ok-eq t u e = cc

  read_local-InRange :
      (d : Device) (b b' : B) (t : Temperature)
      → read_local bus d b ≡ (b', ok t)
      → InRange t.local × InRange t.remote
  unfolding read_local
  read_local-InRange d b b' t h =
      let (b1, v, got, rest) = continue-ok (read bus d 0 b) _ h in
      let e : record { local = Measurement.ok (make_temp v 0); remote = Measurement.not_present }
          ≡ t =
        ok-eq _ t (λ i. (rest i).1) in
      subst (λ u. InRange u.local × InRange u.remote) e
        (make_temp-InRange v 0 (bytes d.address 0 b b1 v got) (omega arith), tt)

  read_both-InRange :
      (d : Device) (use_fract : Bool) (b b' : B) (t : Temperature)
      → read_both bus d use_fract b ≡ (b', ok t)
      → InRange t.local × InRange t.remote
  unfolding read_both
  read_both-InRange d use_fract b b' t h =
      let (b1, status, _, h1) = continue-ok (read bus d 2 b) _ h in
      let (b2, whole, got2, h2) = continue-ok (read bus d 0 b1) _ h1 in
      let (b3, fract, got3, h3) = continue-ok (read_fract bus d use_fract 0x15 b2) _ h2 in
      let (b4, remote, got4, h4) = continue-ok (read bus d 1 b3) _ h3 in
      let (b5, remote_fract, got5, h5) = continue-ok (read_fract bus d use_fract 0x10 b4) _ h4 in
      let e : record {
        local = Measurement.ok (make_temp whole fract);
        remote = remote_measurement status remote remote_fract;
      }
          ≡ t =
        ok-eq _ t (λ i. (h5 i).1) in
      subst (λ u. InRange u.local × InRange u.remote) e
        (
          make_temp-InRange whole fract (bytes d.address 0 b1 b2 whole got2)
              (read_fract-lt d use_fract 0x15 b2 b3 fract got3),
          remote_measurement-InRange status remote remote_fract
              (bytes d.address 1 b3 b4 remote got4)
              (read_fract-lt d use_fract 0x10 b4 b5 remote_fract got5),
        )

  ok-measure : (t u : Measurement) → ok t ≡ ok u → t ≡ u
  ok-measure t u e = cc

  read_one_sensor-InRange :
      (d : Device) (index : ℕ) (b b' : B) (m : Measurement)
      → read_one_sensor bus d index b ≡ (b', ok m)
      → InRange m
  unfolding read_one_sensor
  read_one_sensor-InRange d index b b' m h =
      let (b1, _, _, h1) = continue-ok (lift (assert (leb index 3)) b) _ h in
      let (b2, high, got, h2) = continue-ok (read bus d (0 + index) b1) _ h1 in
      let (b3, low, _, h3) = continue-ok (read bus d (0x10 + index) b2) _ h2 in
      let e : measure high (unpack_low_byte low) ≡ m = ok-measure _ m (λ i. (h3 i).1) in
      subst InRange e (measure-InRange high low (bytes d.address (0 + index) b1 b2 high got))

  read_valid-InRange :
      (d : Device) (b b' : B) (t : Temperature)
      → read_valid bus d b ≡ (b', ok t)
      → InRange t.local × InRange t.remote
  unfolding read_valid
  read_valid-InRange d b b' t h =
      let (b1, local, got1, h1) = continue-ok (read_one_sensor bus d 0 b) _ h in
      let (b2, remote, got2, h2) = continue-ok (read_one_sensor bus d 1 b1) _ h1 in
      let e : record { local = local; remote = remote } ≡ t = ok-eq _ t (λ i. (h2 i).1) in
      subst (λ u. InRange u.local × InRange u.remote) e
        (read_one_sensor-InRange d 0 b b1 local got1, read_one_sensor-InRange d 1 b1 b2 remote got2)

  compare_first-InRange :
      (s : Tmp42x) (bad : ℕ) (r : B × Outcome ℕ) (b' : B) (s' : Tmp42x) (t : Temperature)
      → compare_first bus s bad r ≡ ((b', s'), ok t)
      → InRange t.local × InRange t.remote
  unfolding compare_first
  compare_first-InRange s bad (b, ok high) b' s' t h = settle (high == bad) h
    where
      settle :
          (same : Bool)
          → (if same
              then ((b, s), ok invalid)
              else placed (record s { discard_readings = none }) (read_valid bus s.i2c_device b))
            ≡ ((b', s'), ok t)
          → InRange t.local × InRange t.remote
      settle true k =
          let e : invalid ≡ t = ok-eq invalid t (λ i. (k i).1) in
          subst (λ u. InRange u.local × InRange u.remote) e (tt, tt)
      settle false k = read_valid-InRange s.i2c_device b b' t (λ i. ((k i).0.0, (k i).1))
  compare_first-InRange s bad (b, err kind) b' s' t h =
      let e : err kind ≡ ok t = λ i. (h i).1 in absurd (cc)
  compare_first-InRange s bad (b, panic) b' s' t h =
      let e : panic ≡ ok t = λ i. (h i).1 in absurd (cc)

  read_or_discard-InRange :
      (o : Option ℕ) (s : Tmp42x) (b b' : B) (s' : Tmp42x) (t : Temperature)
      → read_or_discard bus o s b ≡ ((b', s'), ok t)
      → InRange t.local × InRange t.remote
  unfolding read_or_discard
  read_or_discard-InRange none s b b' s' t h =
      read_valid-InRange s.i2c_device b b' t (λ i. ((h i).0.0, (h i).1))
  read_or_discard-InRange (some bad) s b b' s' t h =
      compare_first-InRange s bad (read bus s.i2c_device 0 b) b' s' t h

  -- On every bus of bytes, whatever the driver: a temperature that is measured lies from -64 up to
  -- 192 degrees, at the local and at the remote sensor.
  pub read_temperature-InRange :
      (s s' : Sensor) (b b' : B) (t : Temperature)
      → read_temperature bus (b, s) ≡ ((b', s'), ok t)
      → InRange t.local × InRange t.remote
  unfolding read_temperature Tmp42x.read_temperature
  read_temperature-InRange (Sensor.tmp42x s) s' b b' t h =
      let r = read_or_discard bus s.discard_readings s b in
      read_or_discard-InRange s.discard_readings s b b' r.0.1 t (λ i. (((h i).0.0, r.0.1), (h i).1))
  read_temperature-InRange (Sensor.tmp451 d) s' b b' t h =
      read_both-InRange d true b b' t (λ i. ((h i).0.0, (h i).1))
  read_temperature-InRange (Sensor.adt7461 d) s' b b' t h =
      read_both-InRange d false b b' t (λ i. ((h i).0.0, (h i).1))
  read_temperature-InRange (Sensor.nct218 d) s' b b' t h =
      read_local-InRange d b b' t (λ i. ((h i).0.0, (h i).1))
