-- ===== src/Sensor/Tmp451.antt =====
-- src/sensor/tmp451.rs: the drivers of TMP451, ADT7461 and NCT218.
use kasop.Common.{ℕ, ◌+◌, ◌*◌, bit_and, Bool, not, ◌==◌, if◌then◌else◌}
use kasop.Common.Int.{ℤ, sub_ℕ}
use kasop.Common.Actions.{Action, ◌>>=◌, ◌>>◌, return}
use kasop.I2c.{AsyncBus, Device, read, write, write_readback}
use kasop.Sensor.{Measurement, Temperature}

abbrev pub reg_local_temp : ℕ
reg_local_temp = 0x00

abbrev pub reg_remote_temp : ℕ
reg_remote_temp = 0x01

abbrev pub reg_status : ℕ
reg_status = 0x02

abbrev pub status_open_circuit : ℕ
status_open_circuit = 0x04

abbrev pub reg_config : ℕ
reg_config = 0x03

abbrev pub reg_config_w : ℕ
reg_config_w = 0x09

abbrev pub config_range : ℕ
config_range = 0x04

abbrev pub reg_offset : ℕ
reg_offset = 0x11

abbrev pub reg_remote_frac_temp : ℕ
reg_remote_frac_temp = 0x10

abbrev pub reg_local_frac_temp : ℕ
reg_local_frac_temp = 0x15

unfoldable pub make_temp : ℕ → ℕ → ℤ
make_temp whole fract = sub_ℕ (whole * 256 + fract) (64 * 256)

unfoldable pub remote_measurement : ℕ → ℕ → ℕ → Measurement
unfolding make_temp
remote_measurement status remote_temp remote_frac =
    if not (bit_and status status_open_circuit == 0)
    then Measurement.open_circuit
    else if remote_temp == 0
    then Measurement.short_circuit
    else Measurement.ok (make_temp remote_temp remote_frac)

module _ {B : Type 0} (bus : AsyncBus B) where
  abbrev pub read_fract : Device → Bool → ℕ → Action B ℕ
  read_fract i2c_dev use_fract reg = if use_fract then read bus i2c_dev reg else return 0

  unfoldable pub read_both : Device → Bool → Action B Temperature
  unfolding make_temp remote_measurement
  read_both i2c_dev use_fract = do
    status ← read bus i2c_dev reg_status
    local_temp ← read bus i2c_dev reg_local_temp
    local_frac ← read_fract i2c_dev use_fract reg_local_frac_temp
    remote_temp ← read bus i2c_dev reg_remote_temp
    remote_frac ← read_fract i2c_dev use_fract reg_remote_frac_temp
    return (record {
      local = Measurement.ok (make_temp local_temp local_frac);
      remote = remote_measurement status remote_temp remote_frac;
    })

  unfoldable pub read_local : Device → Action B Temperature
  unfolding make_temp
  read_local i2c_dev = do
    local_temp ← read bus i2c_dev reg_local_temp
    return (record {
      local = Measurement.ok (make_temp local_temp 0);
      remote = Measurement.not_present;
    })

  unfoldable pub generic_init : Device → Action B (Unit {0})
  unfolding write_readback
  generic_init i2c_dev = do
    write_readback bus i2c_dev reg_config_w reg_config config_range
    write bus i2c_dev reg_offset 0
    return tt
