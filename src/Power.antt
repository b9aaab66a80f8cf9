-- ===== src/Power.antt =====
-- src/power.rs: the PIC voltage controllers of the hash boards. `Backend` has the transactions on the
-- I2C bus with their retries, `Voltage` the values of voltages, `Flash` addresses and sections of the
-- PIC's flash, `Control` the operations of a controller, and `Firmware` the programs that are loaded
-- (src/power/firmware.rs). The waits between commands change no state and are left out, and so are
-- the messages to the log. The locks make each operation of the backend one step.
pub mod Backend
pub mod Voltage
pub mod Flash
pub mod Badcore
pub mod Freq
pub mod Firmware
pub mod Control
pub mod Retry
pub mod Sections
pub mod Frequencies
pub mod Loading
pub mod Pic
pub mod Pointer
pub mod Program
pub mod Startup
pub mod Start
mod FakePic
mod FakeLaws
mod Tests
use kasop.Common.{ℕ, List}
use kasop.Common.Actions.{Action}

-- src/async_i2c.rs: `AsyncI2cDev`, whose requests the Linux driver answers. The two operations are
-- those of the driver, behind the channel of requests.
pub record AsyncI2cDev (B : Type 0) : Type 0 where
  -- The number of bytes to read.
  pub read : ℕ → ℕ → Action B (List ℕ)
  pub write : ℕ → List ℕ → Action B (Unit {0})

abbrev pub pic_base_address : ℕ
pic_base_address = 0x50

abbrev pub pic_command_1 : ℕ
pic_command_1 = 0x55

abbrev pub pic_command_2 : ℕ
pic_command_2 = 0xaa

abbrev pub set_pic_flash_pointer : ℕ
set_pic_flash_pointer = 0x01

abbrev pub send_data_command : ℕ
send_data_command = 0x02

abbrev pub read_data_command : ℕ
read_data_command = 0x03

abbrev pub erase_iic_flash : ℕ
erase_iic_flash = 0x04

abbrev pub write_data_into_pic : ℕ
write_data_into_pic = 0x05

abbrev pub jump_command : ℕ
jump_command = 0x06

abbrev pub reset_pic : ℕ
reset_pic = 0x07

abbrev pub get_pic_flash_pointer : ℕ
get_pic_flash_pointer = 0x08

abbrev pub set_voltage_command : ℕ
set_voltage_command = 0x10

abbrev pub enable_voltage_command : ℕ
enable_voltage_command = 0x15

abbrev pub heart_beat_command : ℕ
heart_beat_command = 0x16

abbrev pub get_pic_software_version : ℕ
get_pic_software_version = 0x17

abbrev pub get_voltage_command : ℕ
get_voltage_command = 0x18

abbrev pub rd_temp_offset_value : ℕ
rd_temp_offset_value = 0x23

abbrev pub expected_voltage_ctrl_version : ℕ
expected_voltage_ctrl_version = 0x03
