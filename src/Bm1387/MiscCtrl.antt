-- ===== src/Bm1387/MiscCtrl.antt =====
-- `MiscCtrlReg` of src/bm1387.rs, the register with the settings of a chip.
use kasop.Common.{
  ℕ, ◌+◌, ◌*◌, ◌/◌, ◌%◌, ◌^◌, Bool, true, false, ◌&&◌, Option, none, some, Outcome, ok, err,
  ErrorKind, ltb, ◌==◌, if◌then◌else◌,
}
use kasop.Bm1387.Registers.{Register, bit, bit_at, same_bool}

pub data TfSelector : Type 0 where
  hash_doing uart_receiving uart_transmitting scl0 : TfSelector

pub data RfSelector : Type 0 where
  open_drain sda0 : RfSelector

pub data I2cBusSelect : Type 0 where
  bottom middle : I2cBusSelect

abbrev pub tf_number : TfSelector → ℕ
tf_number TfSelector.hash_doing = 0
tf_number TfSelector.uart_receiving = 1
tf_number TfSelector.uart_transmitting = 2
tf_number TfSelector.scl0 = 3

-- All values of the two bits are selectors.
abbrev pub tf_selector : ℕ → TfSelector
tf_selector n =
    if n == 0
    then TfSelector.hash_doing
    else if n == 1
    then TfSelector.uart_receiving
    else if n == 2
    then TfSelector.uart_transmitting
    else TfSelector.scl0

abbrev pub rf_number : RfSelector → ℕ
rf_number RfSelector.open_drain = 0
rf_number RfSelector.sda0 = 1

abbrev pub rf_selector : ℕ → RfSelector
rf_selector n = if n == 0 then RfSelector.open_drain else RfSelector.sda0

abbrev pub bus_number : I2cBusSelect → ℕ
bus_number I2cBusSelect.bottom = 0
bus_number I2cBusSelect.middle = 1

abbrev pub bus_select : ℕ → I2cBusSelect
bus_select n = if n == 0 then I2cBusSelect.bottom else I2cBusSelect.middle

pub record MiscCtrlReg : Type 0 where
  pub not_set_baud : Bool
  pub inv_clock : Bool
  pub i2c_bus : I2cBusSelect
  pub gate_block : Bool
  pub rfs : RfSelector
  pub baud_div : ℕ
  pub mmen : Bool
  pub tfs : TfSelector

-- `MAX_BAUD_CLOCK_DIV`.
abbrev pub max_baud_clock_div : ℕ
max_baud_clock_div = 26

-- `MiscCtrlReg::new`.
unfoldable pub new_misc_ctrl : Bool → Bool → ℕ → Bool → Bool → Outcome MiscCtrlReg
new_misc_ctrl not_set_baud inv_clock baud_div gate_block mmen =
    if ltb max_baud_clock_div baud_div
    then err ErrorKind.baud_rate
    else ok (record {
      not_set_baud = not_set_baud;
      inv_clock = inv_clock;
      baud_div = baud_div % 2 ^ 8 % 2 ^ 5;
      gate_block = gate_block;
      mmen = mmen;
      tfs = TfSelector.hash_doing;
      rfs = RfSelector.open_drain;
      i2c_bus = I2cBusSelect.bottom;
    })

unfoldable pub set_i2c : MiscCtrlReg → Option I2cBusSelect → MiscCtrlReg
set_i2c r (some bus) = record r {
  not_set_baud = true;
  gate_block = false;
  tfs = TfSelector.scl0;
  rfs = RfSelector.sda0;
  i2c_bus = bus;
}
set_i2c r none = record r {
  not_set_baud = true;
  gate_block = false;
  tfs = TfSelector.hash_doing;
  rfs = RfSelector.open_drain;
  i2c_bus = I2cBusSelect.bottom;
}

unfoldable pub pack_misc_ctrl : MiscCtrlReg → ℕ
pack_misc_ctrl r =
    bit r.not_set_baud * 2 ^ 30
    + bit r.inv_clock * 2 ^ 21
    + bus_number r.i2c_bus * 2 ^ 16
    + bit r.gate_block * 2 ^ 15
    + rf_number r.rfs * 2 ^ 14
    + r.baud_div * 2 ^ 8
    + bit r.mmen * 2 ^ 7
    + tf_number r.tfs * 2 ^ 5

unfoldable pub unpack_misc_ctrl : ℕ → MiscCtrlReg
unpack_misc_ctrl word = record {
  not_set_baud = bit_at word 30;
  inv_clock = bit_at word 21;
  i2c_bus = bus_select (word / 2 ^ 16 % 2);
  gate_block = bit_at word 15;
  rfs = rf_selector (word / 2 ^ 14 % 2);
  baud_div = word / 2 ^ 8 % 2 ^ 5;
  mmen = bit_at word 7;
  tfs = tf_selector (word / 2 ^ 5 % 2 ^ 2);
}

unfoldable pub same_misc_ctrl : MiscCtrlReg → MiscCtrlReg → Bool
same_misc_ctrl a b =
    same_bool a.not_set_baud b.not_set_baud
    && same_bool a.inv_clock b.inv_clock
    && bus_number a.i2c_bus == bus_number b.i2c_bus
    && same_bool a.gate_block b.gate_block
    && rf_number a.rfs == rf_number b.rfs
    && a.baud_div == b.baud_div
    && same_bool a.mmen b.mmen
    && tf_number a.tfs == tf_number b.tfs

abbrev pub misc_ctrl_reg : Register MiscCtrlReg
misc_ctrl_reg = record {
  reg_num = 0x1c;
  from_reg = λ word. ok (unpack_misc_ctrl word);
  to_reg = pack_misc_ctrl;
  same = same_misc_ctrl;
}
