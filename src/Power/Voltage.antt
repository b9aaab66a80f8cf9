-- ===== src/Power/Voltage.antt =====
-- `Voltage` of src/power.rs: the value that the PIC is given, and its conversion from and to volts.
-- The numbers with a fraction are a parameter, with the operations that the conversion uses.
use kasop.Common.{ℕ, Outcome, ok, err, ErrorKind, ltb, if◌then◌else◌}
use kasop.Common.Int.{ℤ, pos, negsuc}

-- The type `f32`: what the source calls, and the two coefficients, which are literals.
pub record Float : Type 1 where
  pub F : Type 0
  pub sub : F → F → F
  pub mul : F → F → F
  pub div : F → F → F
  pub round : F → F
  -- `as isize`, which saturates.
  pub as_isize : F → ℤ
  -- `as f32`.
  pub of_u8 : ℕ → F
  pub volt_conv_coef_1 : F
  pub volt_conv_coef_2 : F

-- The PIC's value: the higher it is, the lower the voltage.
pub record Voltage : Type 0 where
  pub pic : ℕ

abbrev pub min_voltage : Voltage
min_voltage = record { pic = 255 }

abbrev pub max_voltage : Voltage
max_voltage = record { pic = 0 }

-- The test of `from_volts`.
unfoldable pub from_isize : ℤ → Outcome Voltage
from_isize (negsuc n) = err ErrorKind.power
from_isize (pos n) = if ltb 255 n then err ErrorKind.power else ok (record { pic = n })

unfoldable pub from_pic_value : ℕ → Outcome Voltage
from_pic_value pic_value = ok (record { pic = pic_value })

unfoldable pub as_pic_value : Voltage → ℕ
as_pic_value v = v.pic

module _ (f : Float) where
  open f use {F, sub, mul, div, round, as_isize, of_u8, volt_conv_coef_1, volt_conv_coef_2}

  unfoldable pub pic_to_volts : F → F
  pic_to_volts pic_val = div (sub volt_conv_coef_1 pic_val) volt_conv_coef_2

  unfoldable pub volts_to_pic : F → F
  volts_to_pic voltage = round (sub volt_conv_coef_1 (mul volt_conv_coef_2 voltage))

  unfoldable pub from_volts : F → Outcome Voltage
  unfolding from_isize
  from_volts voltage = from_isize (as_isize (volts_to_pic voltage))

  unfoldable pub as_volts : Voltage → F
  unfolding pic_to_volts
  as_volts v = pic_to_volts (of_u8 v.pic)
