-- ===== src/Sensor/Tmp42x.antt =====
-- src/sensor/tmp42x.rs: the driver of TMP421, TMP422 and TMP423. The registers are packed at the bits
-- that the attributes of their fields name.
use kasop.Common.{
  ℕ, ◌+◌, ◌*◌, ◌/◌, ◌%◌, Bool, true, false, ◌==◌, leb, if◌then◌else◌, Option, none, some, Outcome,
  ok, err, panic, assert,
}
use kasop.Common.Int.{sub_ℕ}
use kasop.Common.Actions.{Action, ◌>>=◌, ◌>>◌, return, lift}
use kasop.I2c.{AsyncBus, Device, read, write_readback}
use kasop.Sensor.{Measurement, Temperature}

abbrev pub reg_temp_high_base : ℕ
reg_temp_high_base = 0x00

abbrev pub reg_temp_low_base : ℕ
reg_temp_low_base = 0x10

abbrev pub reg_config_1 : ℕ
reg_config_1 = 0x09

abbrev pub reg_config_2 : ℕ
reg_config_2 = 0x0a

pub record RegConfig1 : Type 0 where
  pub shutdown : Bool
  pub extended_range : Bool

pub record RegConfig2 : Type 0 where
  pub remote_3_enable : Bool
  pub remote_2_enable : Bool
  pub remote_1_enable : Bool
  pub local_enable : Bool
  pub resistance_correction : Bool

pub record RegTempLowByte : Type 0 where
  pub fract : ℕ
  pub temp_invalid : Bool
  pub open_circuit : Bool

abbrev bit : Bool → ℕ → ℕ
bit b weight = if b then weight else 0

abbrev pub pack_config_1 : RegConfig1 → ℕ
pack_config_1 r = bit r.shutdown 64 + bit r.extended_range 4

abbrev pub pack_config_2 : RegConfig2 → ℕ
pack_config_2 r =
    bit r.remote_3_enable 64
    + bit r.remote_2_enable 32
    + bit r.remote_1_enable 16
    + bit r.local_enable 8
    + bit r.resistance_correction 4

abbrev pub unpack_low_byte : ℕ → RegTempLowByte
unpack_low_byte low = record {
  fract = low / 16 % 16;
  temp_invalid = low / 2 % 2 == 1;
  open_circuit = low % 2 == 1;
}

pub record Tmp42x : Type 0 where
  pub i2c_device : Device
  pub num_remote_sensors : ℕ
  pub discard_readings : Option ℕ

-- `TMP42x::new`.
unfoldable pub new_tmp42x : Device → ℕ → Outcome Tmp42x
new_tmp42x i2c_device num_remote_sensors =
    if num_remote_sensors == 1
    then ok (record {
      i2c_device = i2c_device;
      num_remote_sensors = num_remote_sensors;
      discard_readings = none;
    })
    else panic

unfoldable pub measure : ℕ → RegTempLowByte → Measurement
measure high low_bits =
    if low_bits.temp_invalid
    then Measurement.invalid_reading
    else if low_bits.open_circuit
    then Measurement.open_circuit
    else if high == 0
    then Measurement.short_circuit
    else Measurement.ok (sub_ℕ (high * 256 + low_bits.fract * 16) (64 * 256))

abbrev pub invalid : Temperature
invalid = record { local = Measurement.invalid_reading; remote = Measurement.invalid_reading }

-- A run on the bus beside the driver.
abbrev pub placed : {B S A : Type 0} → S → B × Outcome A → (B × S) × Outcome A
placed s r = ((r.0, s), r.1)

module _ {B : Type 0} (bus : AsyncBus B) where
  unfoldable pub read_one_sensor : Device → ℕ → Action B Measurement
  unfolding measure
  read_one_sensor i2c_device index = do
    lift (assert (leb index 3))
    high ← read bus i2c_device (reg_temp_high_base + index)
    low ← read bus i2c_device (reg_temp_low_base + index)
    return (measure high (unpack_low_byte low))

  unfoldable pub configure : Device → Action B (Unit {0})
  unfolding write_readback
  configure i2c_device = do
    write_readback bus i2c_device reg_config_1 reg_config_1
        (pack_config_1 (record { shutdown = false; extended_range = true }))
    write_readback bus i2c_device reg_config_2 reg_config_2 (
        pack_config_2 (record {
          remote_3_enable = false;
          remote_2_enable = false;
          remote_1_enable = true;
          local_enable = true;
          resistance_correction = true;
        }))

  -- The driver with the reading that it remembers, also if the configuration fails behind that.
  abbrev remember_first : Tmp42x → B × Outcome ℕ → (B × Tmp42x) × Outcome (Unit {0})
  remember_first s (b, ok first) =
      placed (record s { discard_readings = some first }) (configure s.i2c_device b)
  remember_first s (b, err kind) = ((b, s), err kind)
  remember_first s (b, panic) = ((b, s), panic)

  unfoldable pub init : Action (B × Tmp42x) (Unit {0})
  unfolding configure
  init (b, s) = remember_first s (read bus s.i2c_device reg_temp_high_base b)

  unfoldable pub read_valid : Device → Action B Temperature
  unfolding read_one_sensor
  read_valid i2c_device = do
    local ← read_one_sensor i2c_device 0
    remote ← read_one_sensor i2c_device 1
    return (record { local = local; remote = remote })

  unfoldable pub compare_first : Tmp42x → ℕ → B × Outcome ℕ → (B × Tmp42x) × Outcome Temperature
  unfolding read_valid
  compare_first s bad_value (b, ok local_high_byte) =
      if local_high_byte == bad_value
      then ((b, s), ok invalid)
      else placed (record s { discard_readings = none }) (read_valid s.i2c_device b)
  compare_first s bad_value (b, err kind) = ((b, s), err kind)
  compare_first s bad_value (b, panic) = ((b, s), panic)

  unfoldable pub read_or_discard : Option ℕ → Tmp42x → B → (B × Tmp42x) × Outcome Temperature
  unfolding compare_first
  read_or_discard none s b = placed s (read_valid s.i2c_device b)
  read_or_discard (some bad_value) s b =
      compare_first s bad_value (read bus s.i2c_device reg_temp_high_base b)

  unfoldable pub read_temperature : Action (B × Tmp42x) Temperature
  unfolding read_or_discard
  read_temperature (b, s) = read_or_discard s.discard_readings s b
