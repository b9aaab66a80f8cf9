-- ===== src/HashchipI2c.antt =====
-- src/bm1387/i2c.rs: the I2C bus behind a chip, driven through a register of the chip. The waits
-- between tries are left out. `Trace` says which try ends a wait, and `Bus` what reads and writes do.
pub mod Waiting
pub mod Transfer
mod FakeChip
mod Tests
use kasop.Common.{
  ℕ, zero, suc, ◌+◌, ◌*◌, ◌/◌, ◌%◌, ◌^◌, Bool, true, false, not, ◌&&◌, List, Option, none, some,
  Outcome, ok, err, panic, ErrorKind, ◌==◌, if◌then◌else◌, bit_and,
}
use kasop.Common.Actions.{Action, ◌>>=◌, ◌>>◌, return, lift}
use kasop.Bm1387.Address.{ChipAddress}
use kasop.Bm1387.Registers.{I2cControlReg, i2c_control_reg, pack_i2c_control}
use kasop.Bm1387.MiscCtrl.{I2cBusSelect, misc_ctrl_reg, set_i2c}
use kasop.Command.Interface.{CommandInterface, read_one_register, write_register_readback}
use kasop.I2c.{Address, AsyncBus, to_writable_hw_addr, to_readable_hw_addr}

abbrev pub max_i2c_busy_wait_tries : ℕ
max_i2c_busy_wait_tries = 50

abbrev pub max_i2c_fail_tries : ℕ
max_i2c_fail_tries = 3

-- The highest bit of the register.
unfoldable pub is_busy : I2cControlReg → Bool
is_busy reg = not (bit_and (pack_i2c_control reg) 0x80000000 == 0)

-- The request of a transaction.
abbrev pub request : ℕ → ℕ → ℕ → I2cControlReg
request addr reg value = record {
  flags = record { busy = false; do_command = true };
  addr = addr;
  reg = reg;
  value = value;
}

-- Whether a reply is to the request to read.
abbrev pub fits : I2cControlReg → I2cControlReg → Bool
fits cmd_request cmd_reply = cmd_reply.addr == cmd_request.addr && cmd_reply.reg == cmd_request.reg

-- A failure under `with_context`.
unfoldable pub as_i2c_error : {S A : Type 0} → S × Outcome A → S × Outcome A
as_i2c_error (s, ok a) = (s, ok a)
as_i2c_error (s, err kind) = (s, err ErrorKind.i2c_hashchip)
as_i2c_error (s, panic) = (s, panic)

module _ {S : Type 0} (i : CommandInterface S) (chip_address : ChipAddress) where
  -- The loop of `wait_busy`.
  unfoldable pub wait_tries : ℕ → Action S I2cControlReg
  wait_tries zero = lift (err ErrorKind.i2c_hashchip)
  wait_tries (suc tries) = do
    reg ← read_one_register i i2c_control_reg chip_address
    let again = wait_tries tries
    if is_busy reg then again else return reg

  unfoldable pub wait_busy : Action S I2cControlReg
  wait_busy = wait_tries max_i2c_busy_wait_tries

  unfoldable pub start : Action S (Unit {0})
  unfolding as_i2c_error
  start = do
    misc ← read_one_register i misc_ctrl_reg chip_address
    write_register_readback i misc_ctrl_reg chip_address (set_i2c misc (some I2cBusSelect.bottom))
    λ s. as_i2c_error (wait_busy s)
    return tt

  -- `AsyncBus::write`.
  unfoldable pub write : Address → ℕ → ℕ → Action S (Unit {0})
  write i2c_address reg value = do
    wait_busy
    i.write_register i2c_control_reg chip_address
        (request (to_writable_hw_addr i2c_address) reg value)
    wait_busy
    return tt

  unfoldable pub read_tries : ℕ → I2cControlReg → Action S ℕ
  read_tries zero cmd_request = lift (err ErrorKind.i2c_hashchip)
  read_tries (suc tries) cmd_request = do
    wait_busy
    i.write_register i2c_control_reg chip_address cmd_request
    cmd_reply ← wait_busy
    let again = read_tries tries cmd_request
    if fits cmd_request cmd_reply then return cmd_reply.value else again

  -- `AsyncBus::read`.
  unfoldable pub read : Address → ℕ → Action S ℕ
  read i2c_address reg =
      read_tries max_i2c_fail_tries (request (to_readable_hw_addr i2c_address) reg 0)

  -- A bus of `I2c` for the sensors.
  abbrev pub hashchip_bus : AsyncBus S
  hashchip_bus = record { read = read; write = write }
