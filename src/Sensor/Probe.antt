-- ===== src/Sensor/Probe.antt =====
-- The trait `Sensor` of src/sensor.rs as the type of its drivers, and the probing for sensors.
use kasop.Common.{
  ℕ, ◌-◌, List, [], ◌∷◌, Option, none, some, ◌==◌, ◌||◌, if◌then◌else◌, true, false, Outcome, ok,
  err, panic,
}
use kasop.Common.Actions.{Action, ◌>>=◌, return, lift}
use kasop.I2c.{Address, AsyncBus, Device, read}
use kasop.Sensor.{Temperature}
use kasop.Sensor.Tmp451.{read_both, read_local, generic_init}
use kasop.Sensor.Tmp42x.{Tmp42x, new_tmp42x, placed}
use kasop.Sensor.Tmp42x

pub data Sensor : Type 0 where
  tmp42x : Tmp42x → Sensor
  tmp451 adt7461 nct218 : Device → Sensor

abbrev pub reg_manufacturer_id : ℕ
reg_manufacturer_id = 0xfe

abbrev pub reg_device_id : ℕ
reg_device_id = 0xff

-- `SENSOR_I2C_ADDRESS`.
abbrev pub sensor_i2c_address : List Address
sensor_i2c_address = record { hw = 0x98 } ∷ record { hw = 0x9a } ∷ record { hw = 0x9c } ∷ []

unfoldable pub new_sensor : Device → ℕ → ℕ → Outcome (Option Sensor)
unfolding new_tmp42x
new_sensor i2c_device manufacturer_id device_id =
    if manufacturer_id == 0x55
    then if device_id == 0x21 || device_id == 0x22 || device_id == 0x23
      then some_tmp42x (new_tmp42x i2c_device (device_id - 0x20))
      else ok (some (tmp451 i2c_device))
    else if manufacturer_id == 0x41
    then ok (some (adt7461 i2c_device))
    else if manufacturer_id == 0x1a
    then ok (some (nct218 i2c_device))
    else ok none
  where
    some_tmp42x : Outcome Tmp42x → Outcome (Option Sensor)
    some_tmp42x (ok s) = ok (some (tmp42x s))
    some_tmp42x (err kind) = err kind
    some_tmp42x panic = panic

module _ {B : Type 0} (bus : AsyncBus B) where
  abbrev as_sensor : {A : Type 0} → (B × Tmp42x) × Outcome A → (B × Sensor) × Outcome A
  as_sensor r = ((r.0.0, tmp42x r.0.1), r.1)

  unfoldable pub init : Action (B × Sensor) (Unit {0})
  unfolding generic_init Tmp42x.init
  init (b, tmp42x s) = as_sensor (Tmp42x.init bus (b, s))
  init (b, tmp451 d) = placed (tmp451 d) (generic_init bus d b)
  init (b, adt7461 d) = placed (adt7461 d) (generic_init bus d b)
  init (b, nct218 d) = placed (nct218 d) (generic_init bus d b)

  unfoldable pub read_temperature : Action (B × Sensor) Temperature
  unfolding read_both read_local Tmp42x.read_temperature
  read_temperature (b, tmp42x s) = as_sensor (Tmp42x.read_temperature bus (b, s))
  read_temperature (b, tmp451 d) = placed (tmp451 d) (read_both bus d true b)
  read_temperature (b, adt7461 d) = placed (adt7461 d) (read_both bus d false b)
  read_temperature (b, nct218 d) = placed (nct218 d) (read_local bus d b)

  unfoldable pub probe_i2c_device : Device → Action B (Option Sensor)
  unfolding new_sensor
  probe_i2c_device i2c_device = do
    manufacturer_id ← read bus i2c_device reg_manufacturer_id
    device_id ← read bus i2c_device reg_device_id
    lift (new_sensor i2c_device manufacturer_id device_id)

  -- The rest of the loop, unless the device is a sensor.
  abbrev pub or_else : Option Sensor → Action B (Option Sensor) → Action B (Option Sensor)
  or_else none next = next
  or_else (some sensor) next = return (some sensor)

  unfoldable pub probe_all : List Address → Action B (Option Sensor)
  unfolding probe_i2c_device
  probe_all [] = return none
  probe_all (address ∷ addresses) = do
    sensor ← probe_i2c_device (record { address = address })
    or_else sensor (probe_all addresses)

  unfoldable pub probe_i2c_sensors : Action B (Option Sensor)
  unfolding probe_all
  probe_i2c_sensors = probe_all sensor_i2c_address
