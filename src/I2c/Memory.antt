-- ===== src/I2c/Memory.antt =====
-- What an I2C bus promises to the drivers of its devices: the registers of each device are a memory.
use kasop.Common.{ℕ, ◌<◌, ◌%◌, ◌^◌, true, ◌&&◌, ◌==◌, if◌then◌else◌, ◌≡◌, arith}
use kasop.Common.Done.{Done, Done-ok, Done-continue}
use kasop.I2c.{Address, AsyncBus, Device, same_value, write_readback}

-- A device and a register.
abbrev pub Memory : Type 0
Memory = ℕ → ℕ → ℕ

abbrev pub update : Memory → ℕ → ℕ → ℕ → Memory
update m hw reg value = λ hw' reg'. if hw' == hw && reg' == reg then value else m hw' reg'

-- The address of a device as `Address::new` makes it, and a byte.
pub record IsAddress (a : Address) : Type 0 where
  pub even : a.hw % 2 ≡ 0
  pub small : a.hw < 2 ^ 8

abbrev pub Byte : ℕ → Type 0
Byte n = n < 2 ^ 8

-- An access may fail where `May` says so, and never panics.
pub record IsMemory {B : Type 0} (bus : AsyncBus B) (May : Type 0) (Holds : B → Memory → Type 0)
    : Type 0 where
  pub reads :
      (a : Address) (reg : ℕ) (s : B) (m : Memory)
      → IsAddress a
      → Byte reg
      → Holds s m
      → Done May (bus.read a reg s) (λ t value. Holds t m × (value ≡ m a.hw reg))
  pub writes :
      (a : Address) (reg value : ℕ) (s : B) (m : Memory)
      → IsAddress a
      → Byte reg
      → Byte value
      → Holds s m
      → Done May (bus.write a reg value s) (λ t _. Holds t (update m a.hw reg value))

module _ {B : Type 0} (bus : AsyncBus B) (May : Type 0) (Holds : B → Memory → Type 0)
    (memory : IsMemory bus May Holds) where
  -- On a bus that is a memory, a write that is read back from the same register does not disagree
  -- with itself: it can fail only as the bus does.
  pub write_readback-IsMemory :
      (d : Device) (reg value : ℕ) (s : B) (m : Memory)
      → IsAddress d.address
      → Byte reg
      → Byte value
      → Holds s m
      → Done May
          (write_readback bus d reg reg value s)
          (λ t _. Holds t (update m d.address.hw reg value))
  unfolding write_readback same_value
  write_readback-IsMemory d reg value s m ha hr hv h =
      Done-continue (memory.writes d.address reg value s m ha hr hv h) (λ t _ p.
        Done-continue (memory.reads d.address reg t (update m d.address.hw reg value) ha hr p)
          (λ u v q. rw (same v q.1) (Done-ok q.0)))
    where
      same : (v : ℕ) → v ≡ update m d.address.hw reg value d.address.hw reg → (value == v) ≡ true
      same v e = ground arith
