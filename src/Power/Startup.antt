-- ===== src/Power/Startup.antt =====
-- The state of `Control` of src/power.rs, and the start of a controller.
use kasop.Common.{
  ℕ, Bool, true, false, Option, none, some, Outcome, ok, err, panic, ErrorKind, require, ◌==◌,
  if◌then◌else◌,
}
use kasop.Common.Actions.{Action, ◌>>=◌, ◌>>◌, return, lift}
use kasop.Power.{AsyncI2cDev, set_voltage_command, expected_voltage_ctrl_version}
use kasop.Power.Voltage.{Voltage, as_pic_value}
use kasop.Power.Badcore
use kasop.Power.Badcore.{FlashBadcore}
use kasop.Power.Freq
use kasop.Power.Freq.{FlashFreq}
use kasop.Power.Firmware.{PicProgram}
use kasop.Power.Control.{
  write, reset, read_flash, jump_from_loader_to_app, get_version, program_pic, enable_voltage,
  disable_voltage, send_heart_beat,
}
use kasop.Common.{◌∷◌, []}

-- The fields, with the bus behind the backend, and whether the tasks for the heart beat and for the
-- end are started.
pub record Control (B : Type 0) : Type 0 where
  pub i2c : B
  pub current_voltage : Option Voltage
  pub badcore_flash : Option FlashBadcore
  pub freq_flash : Option FlashFreq
  pub heart_beat : Bool

-- `Control::new`.
unfoldable pub new : {B : Type 0} → B → Control B
new i2c = record {
  i2c = i2c;
  current_voltage = none;
  badcore_flash = none;
  freq_flash = none;
  heart_beat = false;
}

module _ {B A : Type 0} where
  abbrev pub keep : Control B → B × Outcome A → Control B × Outcome A
  keep c (s, o) = (record c { i2c = s }, o)

  -- An operation on the backend.
  abbrev pub backend : Action B A → Action (Control B) A
  backend act c = keep c (act c.i2c)

module _ {B : Type 0} where
  abbrev pub set_current : Voltage → Action (Control B) (Unit {0})
  set_current v c = (record c { current_voltage = some v }, ok tt)

  abbrev pub set_badcore : Option FlashBadcore → Action (Control B) (Unit {0})
  set_badcore flash c = (record c { badcore_flash = flash }, ok tt)

  abbrev pub set_freq : Option FlashFreq → Action (Control B) (Unit {0})
  set_freq flash c = (record c { freq_flash = flash }, ok tt)

  abbrev pub start_heart_beat_task : Action (Control B) (Unit {0})
  start_heart_beat_task c = (record c { heart_beat = true }, ok tt)

unfoldable pub is_current : Option Voltage → Voltage → Bool
is_current none v = false
is_current (some u) v = u.pic == v.pic

-- `expect` on a result.
unfoldable pub expect_ok : {B : Type 0} → B × Outcome (Unit {0}) → B × Outcome (Unit {0})
expect_ok (s, ok done) = (s, ok tt)
expect_ok (s, err kind) = (s, panic)
expect_ok (s, panic) = (s, panic)

module _ {B : Type 0} (inner : AsyncI2cDev B) (hashboard_idx : ℕ) where
  unfoldable pub get_current_voltage : Action (Control B) (Option Voltage)
  get_current_voltage c = (c, ok c.current_voltage)

  unfoldable pub set_voltage : Voltage → Action (Control B) (Unit {0})
  unfolding is_current as_pic_value
  set_voltage v c =
      if is_current c.current_voltage v
      then (c, ok tt)
      else (do
        backend (write inner hashboard_idx set_voltage_command (as_pic_value v ∷ []))
        set_current v)
          c

  unfoldable pub reset_and_start_app : Action (Control B) ℕ
  reset_and_start_app = do
    backend (reset inner hashboard_idx)
    badcore ← backend (read_flash inner hashboard_idx Badcore.start Badcore.len)
    badcore_flash ← lift (Badcore.parse badcore)
    set_badcore badcore_flash
    freq ← backend (read_flash inner hashboard_idx Freq.start Freq.len)
    freq_flash ← lift (Freq.parse freq)
    set_freq freq_flash
    backend (jump_from_loader_to_app inner hashboard_idx)
    backend (get_version inner hashboard_idx)

  -- What the task of the heart beat does each time, and what is done at a halt.
  unfoldable pub heart_beat_round : Action B (Unit {0})
  unfolding expect_ok
  heart_beat_round s = expect_ok (send_heart_beat inner hashboard_idx s)

  unfoldable pub halt_handler : Action B (Unit {0})
  unfolding expect_ok
  halt_handler s = expect_ok (disable_voltage inner hashboard_idx s)

  -- `read_firmware` is what reading the file of the program gives.
  unfoldable pub reload : Outcome PicProgram → Action (Control B) (Unit {0})
  reload read_firmware = do
    program ← lift read_firmware
    backend (program_pic inner hashboard_idx program)
    version ← reset_and_start_app
    lift (require (version == expected_voltage_ctrl_version) ErrorKind.unexpected_version)

  -- `open_core_voltage` is the static of that name.
  unfoldable pub init : Outcome PicProgram → Voltage → Action (Control B) (Unit {0})
  unfolding reload
  init read_firmware open_core_voltage = do
    version ← reset_and_start_app
    if version == expected_voltage_ctrl_version then return tt else reload read_firmware
    set_voltage open_core_voltage
    backend (enable_voltage inner hashboard_idx)
    start_heart_beat_task
