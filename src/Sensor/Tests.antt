-- ===== src/Sensor/Tests.antt =====
-- The sensors of the tests of src/sensor.rs, on a fake bus.
use kasop.Common.{ℕ, ◌*◌, [], ◌∷◌, Option, some, Outcome, ok, ◌≡◌, refl, arith}
use kasop.Common.Int.{pos}
use kasop.I2c.{Device, AsyncBus, read}
use kasop.I2c.Fake.{FakeI2cBus, new_fake, fake_bus, fake_read, fake_value}
use kasop.Sensor.{Measurement}
use kasop.Sensor.Tmp42x.{Tmp42x}
use kasop.Sensor.Tmp451.{read_both, make_temp, remote_measurement}
use kasop.Sensor.Probe.{Sensor, probe_i2c_sensors, sensor_i2c_address, read_temperature}
use kasop.Sensor.Search.{HasIds, Found, probe_i2c_sensors-Found}
use kasop.Sensor.Ranges.{ReadsBytes}

abbrev device : Device
device = record { address = record { hw = 0x98 } }

-- The ids of a TMP422.
abbrev tmp422_bus : FakeI2cBus
tmp422_bus =
    new_fake (record { hw = 0x98 })
      (record { register = 0xfe; value = 0x55 } ∷ record { register = 0xff; value = 0x22 } ∷ [])
      (some 0) (some 0xff)

manufacturer_read : read fake_bus device 0xfe tmp422_bus ≡ (tmp422_bus, ok 0x55)
unfolding fake_read fake_value
manufacturer_read = refl

device_read : read fake_bus device 0xff tmp422_bus ≡ (tmp422_bus, ok 0x22)
unfolding fake_read fake_value
device_read = refl

abbrev first_byte : ℕ
first_byte = 0

abbrev waiting : Tmp42x
waiting = record { i2c_device = device; num_remote_sensors = 1; discard_readings = some first_byte }

high_read : read fake_bus device 0 tmp422_bus ≡ (tmp422_bus, ok 0)
unfolding fake_read fake_value
high_read = refl

-- A bus whose registers all hold 0x57, which is 23 degrees and a fraction.
abbrev constant_bus : AsyncBus (Unit {0})
constant_bus = record { read = λ a reg s. (s, ok 0x57); write = λ a reg val s. (s, ok tt) }

constant_bus-ReadsBytes : ReadsBytes constant_bus
constant_bus-ReadsBytes a reg b b' v h = let e : ok 0x57 ≡ ok v = λ i. (h i).1 in ground arith

abbrev at_23 : Measurement
at_23 = Measurement.ok (pos (23 * 256))

adt7461_reads : read_temperature constant_bus (tt, Sensor.adt7461 device) ≡ (
  (tt, Sensor.adt7461 device),
  ok (record { local = at_23; remote = Measurement.open_circuit }),
)
unfolding read_temperature read_both make_temp remote_measurement
adt7461_reads = refl

tmp422_ids : HasIds tmp422_bus 0x55 0x22 0xff
unfolding fake_value
tmp422_ids = (refl, refl, refl)

probe_i2c_sensors-Found_example :
    (o : Outcome (Option Sensor)) × (probe_i2c_sensors fake_bus tmp422_bus ≡ (tmp422_bus, o))
    × Found tmp422_bus 0x55 0x22 sensor_i2c_address o
probe_i2c_sensors-Found_example =
    probe_i2c_sensors-Found tmp422_bus 0x55 0x22 0xff tmp422_ids (ground arith)
