-- ===== src/Sensor/Readings.antt =====
-- What the drivers report: which one is chosen, which readings are discarded, and the range of a
-- temperature.
use kasop.Common.{
  ℕ, Option, none, some, ◌==◌, ==_iff, Bool-cases, Outcome, ok, err, panic, ◌≡◌, ◌≢◌, ◌∙◌, ap, ◌⊎◌,
  inl, inr, arith,
}
use kasop.I2c.{AsyncBus, Device, read}
use kasop.Sensor.Tmp42x.{
  RegTempLowByte, Tmp42x, compare_first, invalid, measure, new_tmp42x, placed, read_one_sensor,
  read_or_discard, read_valid, unpack_low_byte,
}
use kasop.Sensor.Tmp42x
use kasop.Sensor.Probe.{Sensor, new_sensor, probe_i2c_device, reg_manufacturer_id, reg_device_id}

-- What the outcome of a probe says of the two ids.
abbrev pub IsProbed : Device → ℕ → ℕ → Outcome (Option Sensor) → Type 0
IsProbed d m dev panic = (m ≡ 0x55) × ((dev ≡ 0x22) ⊎ (dev ≡ 0x23))
IsProbed d m dev (err kind) = ⊥
IsProbed d m dev (ok none) = (m ≢ 0x55) × (m ≢ 0x41) × (m ≢ 0x1a)
IsProbed d m dev (ok (some (Sensor.tmp42x s))) =
    (m ≡ 0x55)
    × (dev ≡ 0x21)
    × (s ≡ record { i2c_device = d; num_remote_sensors = 1; discard_readings = none })
IsProbed d m dev (ok (some (Sensor.tmp451 e))) =
    (m ≡ 0x55) × (dev ≢ 0x21) × (dev ≢ 0x22) × (dev ≢ 0x23) × (e ≡ d)
IsProbed d m dev (ok (some (Sensor.adt7461 e))) = (m ≡ 0x41) × (e ≡ d)
IsProbed d m dev (ok (some (Sensor.nct218 e))) = (m ≡ 0x1a) × (e ≡ d)

pub new_sensor-IsProbed : (d : Device) (m dev : ℕ) → IsProbed d m dev (new_sensor d m dev)
unfolding new_sensor new_tmp42x
new_sensor-IsProbed d m dev = ground arith

module _ {B : Type 0} (bus : AsyncBus B) where
  -- On every bus from which the two ids of a device are read, the probe chooses the driver by them;
  -- it panics exactly if they are those of a TMP422 or a TMP423.
  pub probe_i2c_device-IsProbed :
      (d : Device) (m dev : ℕ) (b b' b'' : B)
      → read bus d reg_manufacturer_id b ≡ (b', ok m)
      → read bus d reg_device_id b' ≡ (b'', ok dev)
      → (o : Outcome (Option Sensor)) × (probe_i2c_device bus d b ≡ (b'', o)) × IsProbed d m dev o
  unfolding probe_i2c_device
  probe_i2c_device-IsProbed d m dev b b' b'' first second =
      (new_sensor d m dev, rw (first, second), new_sensor-IsProbed d m dev)

  discarding :
      (s : Tmp42x) (bad high : ℕ) (b b' : B)
      → read bus s.i2c_device 0 b ≡ (b', ok high)
      → ((high ≡ bad) × (read_or_discard bus (some bad) s b ≡ ((b', s), ok invalid)))
        ⊎ ((high ≢ bad)
            × (read_or_discard bus (some bad) s b
                ≡ placed (record s { discard_readings = none }) (read_valid bus s.i2c_device b')))
  unfolding read_or_discard compare_first
  discarding s bad high b b' first = elim (Bool-cases (high == bad)) [
    | inl e ↦ inl ((==_iff high bad).0 e, rw (first, e))
    | inr e ↦ inr (ground arith, rw (first, e))
  ]

  -- Behind `init`, a TMP42x whose local temperature still has the high byte that `init` found reports
  -- an invalid reading and goes on comparing; once the byte differs it reads both sensors, and
  -- no longer compares, whether these readings fail or not.
  pub read_temperature_discards :
      (s : Tmp42x) (bad high : ℕ) (b b' : B)
      → s.discard_readings ≡ some bad
      → read bus s.i2c_device 0 b ≡ (b', ok high)
      → ((high ≡ bad) × (Tmp42x.read_temperature bus (b, s) ≡ ((b', s), ok invalid)))
        ⊎ ((high ≢ bad)
            × (Tmp42x.read_temperature bus (b, s)
                ≡ placed (record s { discard_readings = none }) (read_valid bus s.i2c_device b')))
  unfolding Tmp42x.read_temperature
  read_temperature_discards s bad high b b' waits first =
      let stored = ap (λ o. read_or_discard bus o s b) waits in
      elim (discarding s bad high b b' first) [
        | inl (same, e) ↦ inl (same, stored ∙ e)
        | inr (moved, e) ↦ inr (moved, stored ∙ e)
      ]
