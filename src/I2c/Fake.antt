-- ===== src/I2c/Fake.antt =====
-- src/i2c/test_utils.rs: a bus that is backed by 256 registers.
use kasop.Common.{
  ℕ, List, [], ◌∷◌, Option, none, some, get_elem?, set, replicate, Outcome, ok, err, panic,
  ErrorKind, ◌==◌, Bool, if◌then◌else◌,
}
use kasop.Common.Actions.{Action, continue}
use kasop.I2c.{Address, AsyncBus}

pub record InitReg : Type 0 where
  pub register : ℕ
  pub value : ℕ

pub record FakeI2cBus : Type 0 where
  pub respond_addr : Address
  pub registers : List (Option ℕ)
  pub other_addr_response : Option ℕ

abbrev store_all : List InitReg → List (Option ℕ) → List (Option ℕ)
store_all [] registers = registers
store_all (r ∷ rs) registers = store_all rs (set registers r.register (some r.value))

-- `FakeI2cBus::new`.
abbrev pub new_fake : Address → List InitReg → Option ℕ → Option ℕ → FakeI2cBus
new_fake respond_addr regs default_value other_addr_response = record {
  respond_addr = respond_addr;
  registers = store_all regs (replicate 256 default_value);
  other_addr_response = other_addr_response;
}

abbrev pub responds : FakeI2cBus → Address → Bool
responds bus addr = addr.hw == bus.respond_addr.hw

-- A value, or the error `I2c`; behind the 256 registers, a panic.
abbrev pub answer : Option ℕ → Outcome ℕ
answer none = err ErrorKind.i2c
answer (some val) = ok val

abbrev pub at_register : Option (Option ℕ) → Outcome ℕ
at_register none = panic
at_register (some val) = answer val

unfoldable pub fake_value : FakeI2cBus → Address → ℕ → Outcome ℕ
fake_value bus addr reg =
    if responds bus addr
    then at_register (get_elem? bus.registers reg)
    else answer bus.other_addr_response

unfoldable pub fake_store : Address → ℕ → ℕ → FakeI2cBus → FakeI2cBus
fake_store addr reg val bus =
    if responds bus addr then record bus { registers = set bus.registers reg (some val) } else bus

unfoldable pub fake_read : Address → ℕ → Action FakeI2cBus ℕ
unfolding fake_value
fake_read addr reg bus = (bus, fake_value bus addr reg)

unfoldable pub fake_write : Address → ℕ → ℕ → Action FakeI2cBus (Unit {0})
unfolding fake_read fake_store
fake_write addr reg val bus =
    continue (fake_read addr reg bus) λ old s. (fake_store addr reg val s, ok tt)

abbrev pub fake_bus : AsyncBus FakeI2cBus
fake_bus = record { read = fake_read; write = fake_write }
