-- ===== src/Bm1387/Packing.antt =====
-- Registers survive their packing into words, and what the settings for I2C change in one.
use kasop.Common.{ℕ, ◌+◌, ◌*◌, ◌/◌, ◌%◌, ◌^◌, ◌<◌, Bool, true, false, some, ◌==◌, ◌≡◌, refl, arith}
use kasop.Bm1387.Registers.{
  bit, bit_at, byte_at, I2cControlReg, pack_i2c_control, unpack_i2c_control,
}
use kasop.Bm1387.MiscCtrl.{
  TfSelector, RfSelector, I2cBusSelect, MiscCtrlReg, tf_number, rf_number, bus_number, tf_selector,
  rf_selector, bus_select, pack_misc_ctrl, unpack_misc_ctrl, set_i2c,
}

bit-lt : (b : Bool) → bit b < 2
bit-lt true = omega arith
bit-lt false = omega arith

-- A bit that was packed is read back.
bit_back : (b : Bool) (n : ℕ) → n ≡ bit b → (n == 1) ≡ b
bit_back true n e = ground arith
bit_back false n e = ground arith

pub record AreBytes (r : I2cControlReg) : Type 0 where
  pub addr : r.addr < 2 ^ 8
  pub reg : r.reg < 2 ^ 8
  pub value : r.value < 2 ^ 8

-- The register of the I2C controller is read back from its word.
pub unpack-pack_i2c_control :
    (r : I2cControlReg) → AreBytes r → unpack_i2c_control (pack_i2c_control r) ≡ r
unfolding unpack_i2c_control pack_i2c_control
unpack-pack_i2c_control r h =
    let b = bit r.flags.busy in
    let d = bit r.flags.do_command in
    let word : ℕ = (b * 2 ^ 7 + d) * 2 ^ 24 + r.addr * 2 ^ 16 + r.reg * 2 ^ 8 + r.value in
    let lb = bit-lt r.flags.busy in
    let ld = bit-lt r.flags.do_command in
    let busy : bit_at word 31 ≡ r.flags.busy =
      bit_back r.flags.busy (word / 2 ^ 31 % 2) (omega arith) in
    let command : bit_at word 24 ≡ r.flags.do_command =
      bit_back r.flags.do_command (word / 2 ^ 24 % 2) (omega arith) in
    let addr : byte_at word 16 ≡ r.addr = omega arith in
    let reg : byte_at word 8 ≡ r.reg = omega arith in
    let value : byte_at word 0 ≡ r.value = omega arith in
    λ i. record {
      flags = record { busy = busy i; do_command = command i };
      addr = addr i;
      reg = reg i;
      value = value i;
    }

tf_back : (t : TfSelector) (n : ℕ) → n ≡ tf_number t → tf_selector n ≡ t
tf_back TfSelector.hash_doing n e = rw e refl
tf_back TfSelector.uart_receiving n e = rw e refl
tf_back TfSelector.uart_transmitting n e = rw e refl
tf_back TfSelector.scl0 n e = rw e refl

rf_back : (r : RfSelector) (n : ℕ) → n ≡ rf_number r → rf_selector n ≡ r
rf_back RfSelector.open_drain n e = rw e refl
rf_back RfSelector.sda0 n e = rw e refl

bus_back : (b : I2cBusSelect) (n : ℕ) → n ≡ bus_number b → bus_select n ≡ b
bus_back I2cBusSelect.bottom n e = rw e refl
bus_back I2cBusSelect.middle n e = rw e refl

tf_number-lt : (t : TfSelector) → tf_number t < 4
tf_number-lt TfSelector.hash_doing = omega arith
tf_number-lt TfSelector.uart_receiving = omega arith
tf_number-lt TfSelector.uart_transmitting = omega arith
tf_number-lt TfSelector.scl0 = omega arith

rf_number-lt : (r : RfSelector) → rf_number r < 2
rf_number-lt RfSelector.open_drain = omega arith
rf_number-lt RfSelector.sda0 = omega arith

bus_number-lt : (b : I2cBusSelect) → bus_number b < 2
bus_number-lt I2cBusSelect.bottom = omega arith
bus_number-lt I2cBusSelect.middle = omega arith

-- The fields as digits of the word, given that each fits its place.
digits :
    (n i s g r b m t : ℕ)
    → n < 2
    → i < 2
    → s < 2
    → g < 2
    → r < 2
    → b < 2 ^ 5
    → m < 2
    → t < 4
    → let word : ℕ =
        n * 2 ^ 30
        + i * 2 ^ 21
        + s * 2 ^ 16
        + g * 2 ^ 15
        + r * 2 ^ 14
        + b * 2 ^ 8
        + m * 2 ^ 7
        + t * 2 ^ 5 in
      (word / 2 ^ 30 % 2 ≡ n)
      × (word / 2 ^ 21 % 2 ≡ i)
      × (word / 2 ^ 16 % 2 ≡ s)
      × (word / 2 ^ 15 % 2 ≡ g)
      × (word / 2 ^ 14 % 2 ≡ r)
      × (word / 2 ^ 8 % 2 ^ 5 ≡ b)
      × (word / 2 ^ 7 % 2 ≡ m)
      × (word / 2 ^ 5 % 2 ^ 2 ≡ t)
digits n i s g r b m t hn hi hs hg hr hb hm ht = (
  omega arith,
  omega arith,
  omega arith,
  omega arith,
  omega arith,
  omega arith,
  omega arith,
  omega arith,
)

-- The settings of a chip are read back from their word.
pub unpack-pack_misc_ctrl :
    (r : MiscCtrlReg) → r.baud_div < 2 ^ 5 → unpack_misc_ctrl (pack_misc_ctrl r) ≡ r
unfolding unpack_misc_ctrl pack_misc_ctrl
unpack-pack_misc_ctrl r h =
    let (n, v, s, g, f, b, m, t) =
      digits (bit r.not_set_baud) (bit r.inv_clock) (bus_number r.i2c_bus) (bit r.gate_block)
        (rf_number r.rfs) r.baud_div (bit r.mmen) (tf_number r.tfs) (bit-lt r.not_set_baud)
        (bit-lt r.inv_clock) (bus_number-lt r.i2c_bus) (bit-lt r.gate_block) (rf_number-lt r.rfs) h
        (bit-lt r.mmen) (tf_number-lt r.tfs) in
    λ i. record {
      not_set_baud = bit_back r.not_set_baud _ n i;
      inv_clock = bit_back r.inv_clock _ v i;
      i2c_bus = bus_back r.i2c_bus _ s i;
      gate_block = bit_back r.gate_block _ g i;
      rfs = rf_back r.rfs _ f i;
      baud_div = b i;
      mmen = bit_back r.mmen _ m i;
      tfs = tf_back r.tfs _ t i;
    }

bit_of_test : (n : ℕ) → n < 2 → bit (n == 1) ≡ n
bit_of_test n h = ground arith

-- Reading the settings, enabling an I2C bus and writing them: the clock's inversion, the baud rate and
-- the multi-midstate flag stay, the pins are those of I2C, and every other bit is cleared but the
-- two that are set.
pub set_i2c_word :
    (word : ℕ) (bus : I2cBusSelect)
    → pack_misc_ctrl (set_i2c (unpack_misc_ctrl word) (some bus))
      ≡ 2 ^ 30
        + word / 2 ^ 21 % 2 * 2 ^ 21
        + bus_number bus * 2 ^ 16
        + 2 ^ 14
        + word / 2 ^ 8 % 2 ^ 5 * 2 ^ 8
        + word / 2 ^ 7 % 2 * 2 ^ 7
        + 3 * 2 ^ 5
unfolding pack_misc_ctrl set_i2c unpack_misc_ctrl
set_i2c_word word bus = omega (
  arith,
  bit_of_test (word / 2 ^ 21 % 2) (omega arith),
  bit_of_test (word / 2 ^ 7 % 2) (omega arith),
)

-- The example of the driver's tests.
set_i2c_runs :
    pack_misc_ctrl (set_i2c (unpack_misc_ctrl 0x00200180) (some I2cBusSelect.bottom)) ≡ 0x402041e0
unfolding pack_misc_ctrl set_i2c unpack_misc_ctrl
set_i2c_runs = refl
