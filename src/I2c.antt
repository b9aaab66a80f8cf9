-- ===== src/I2c.antt =====
-- src/i2c.rs: addresses, buses and devices. A bus is a state with two operations. The clones of a
-- `SharedBus` lock one bus, so they are that bus; a device is an address on it.
pub mod Fake
pub mod Readback
pub mod Memory
mod Tests
use kasop.Common.{ℕ, bit_and, bit_or, Outcome, ok, err, panic, ErrorKind, ◌==◌, if◌then◌else◌}
use kasop.Common.Actions.{Action, ◌>>=◌, ◌>>◌, lift}

pub record Address : Type 0 where
  pub hw : ℕ

-- `Address::new`.
unfoldable pub new_address : ℕ → Outcome Address
new_address address = if bit_and address 1 == 0 then ok (record { hw = address }) else panic

unfoldable pub to_writable_hw_addr : Address → ℕ
to_writable_hw_addr a = bit_or a.hw 1

unfoldable pub to_readable_hw_addr : Address → ℕ
to_readable_hw_addr a = a.hw

-- The trait `AsyncBus`.
pub record AsyncBus (B : Type 0) : Type 0 where
  pub read : Address → ℕ → Action B ℕ
  pub write : Address → ℕ → ℕ → Action B (Unit {0})

-- `AsyncDevice` for `Device`.
pub record Device : Type 0 where
  pub address : Address

unfoldable pub same_value : ℕ → ℕ → Outcome (Unit {0})
same_value val new_val = if val == new_val then ok tt else err ErrorKind.i2c_hashchip

module _ {B : Type 0} (bus : AsyncBus B) where
  abbrev pub read : Device → ℕ → Action B ℕ
  read d reg = bus.read d.address reg

  abbrev pub write : Device → ℕ → ℕ → Action B (Unit {0})
  write d reg val = bus.write d.address reg val

  unfoldable pub write_readback : Device → ℕ → ℕ → ℕ → Action B (Unit {0})
  unfolding same_value
  write_readback d reg reg_read_back val = do
    write d reg val
    new_val ← read d reg_read_back
    lift (same_value val new_val)
