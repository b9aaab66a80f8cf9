-- ===== src/HashchipI2c/Transfer.antt =====
-- Reading and writing over the controller of a chip.
use kasop.Common.{
  ℕ, zero, suc, ◌+◌, ◌*◌, ◌^◌, ◌<◌, bit_and, Bool, true, false, not, ◌==◌, ◌≡◌, refl, arith,
}
use kasop.Common.Bits.Fields.{mask_above}
use kasop.Common.Done.{Done, Done-ok, Done-continue}
use kasop.I2c.Memory.{Memory, update, IsMemory, IsAddress, Byte}
use kasop.I2c.{Address, to_readable_hw_addr, to_writable_hw_addr}
use kasop.Bm1387.Address.{ChipAddress}
use kasop.Bm1387.Registers.{I2cControlReg, i2c_control_reg, pack_i2c_control, bit}
use kasop.Bm1387.Packing.{AreBytes}
use kasop.Command.Interface.{CommandInterface, read_one_register}
use kasop.HashchipI2c.{
  is_busy, wait_tries, wait_busy, fits, read_tries, read, write, request, hashchip_bus,
}

-- The bit that is tested is the flag.
pub is_busy_lem : (r : I2cControlReg) → AreBytes r → is_busy r ≡ r.flags.busy
unfolding is_busy pack_i2c_control
is_busy_lem r h = flag r.flags.busy
  where
    rest : ℕ
    rest = bit r.flags.do_command * 2 ^ 24 + r.addr * 2 ^ 16 + r.reg * 2 ^ 8 + r.value

    below : (d : Bool) → bit d * 2 ^ 24 + r.addr * 2 ^ 16 + r.reg * 2 ^ 8 + r.value < 2 ^ 31
    below true = omega (arith, h.addr, h.reg, h.value)
    below false = omega (arith, h.addr, h.reg, h.value)

    tested :
        (b : ℕ)
        → bit_and
            ((b * 2 ^ 7 + bit r.flags.do_command) * 2 ^ 24
              + r.addr * 2 ^ 16
              + r.reg * 2 ^ 8
              + r.value)
            0x80000000
          ≡ bit_and b 1 * 2 ^ 31
    tested b =
        let e : (b * 2 ^ 7 + bit r.flags.do_command) * 2 ^ 24
              + r.addr * 2 ^ 16
              + r.reg * 2 ^ 8
              + r.value
            ≡ b * 2 ^ 31 + rest =
          omega arith in
        rw e (mask_above 31 b rest 1 (below r.flags.do_command))

    flag :
        (b : Bool)
        → not (
            bit_and
              ((bit b * 2 ^ 7 + bit r.flags.do_command) * 2 ^ 24
                + r.addr * 2 ^ 16
                + r.reg * 2 ^ 8
                + r.value)
              0x80000000
            == 0)
          ≡ b
    flag true = rw (tested 1) refl
    flag false = rw (tested 0) refl

-- What the controller in a chip does: `Shows s n last m` says that it is busy for `n` more reads of
-- its register, and then shows `last`, and that the devices hold the memory `m`. A request that is
-- written while it is idle keeps it busy for less reads than the driver makes.
pub record IsController {S : Type 0} (i : CommandInterface S) (chip : ChipAddress) (May : Type 0)
    (Shows : S → ℕ → I2cControlReg → Memory → Type 0) : Type 0 where
  pub looks_busy :
      (s : S) (n : ℕ) (last : I2cControlReg) (m : Memory)
      → Shows s (suc n) last m
      → Done May
          (read_one_register i i2c_control_reg chip s)
          (λ t reg. Shows t n last m × (is_busy reg ≡ true))
  pub looks_idle :
      (s : S) (last : I2cControlReg) (m : Memory)
      → Shows s 0 last m
      → Done May
          (read_one_register i i2c_control_reg chip s)
          (λ t reg. Shows t 0 last m × (reg ≡ last) × (is_busy reg ≡ false))
  pub starts_read :
      (s : S) (last : I2cControlReg) (m : Memory) (a : Address) (reg : ℕ)
      → IsAddress a
      → Byte reg
      → Shows s 0 last m
      → Done May
          (i.write_register i2c_control_reg chip (request (to_readable_hw_addr a) reg 0) s)
          (λ t _.
            (n : ℕ) × (reply : I2cControlReg) × (n < 50)
            × Shows t n reply m
            × (reply.addr ≡ to_readable_hw_addr a)
            × (reply.reg ≡ reg)
            × (reply.value ≡ m a.hw reg))
  pub starts_write :
      (s : S) (last : I2cControlReg) (m : Memory) (a : Address) (reg value : ℕ)
      → IsAddress a
      → Byte reg
      → Byte value
      → Shows s 0 last m
      → Done May
          (i.write_register i2c_control_reg chip (request (to_writable_hw_addr a) reg value) s)
          (λ t _.
            (n : ℕ) × (reply : I2cControlReg) × (n < 50)
            × Shows t n reply (update m a.hw reg value))

module _ {S : Type 0} (i : CommandInterface S) (chip : ChipAddress) (May : Type 0)
    (Shows : S → ℕ → I2cControlReg → Memory → Type 0)
    (chip_i2c : IsController i chip May Shows) where
  wait_tries-Done :
      (n fuel : ℕ) (s : S) (last : I2cControlReg) (m : Memory)
      → n < fuel
      → Shows s n last m
      → Done May (wait_tries i chip fuel s) (λ t reg. Shows t 0 last m × (reg ≡ last))
  unfolding wait_tries
  wait_tries-Done n zero s last m lt h = absurd (omega arith)
  wait_tries-Done zero (suc fuel) s last m lt h =
      Done-continue (chip_i2c.looks_idle s last m h) (λ t reg p. rw p.2 (Done-ok (p.0, p.1)))
  wait_tries-Done (suc n) (suc fuel) s last m lt h =
      Done-continue (chip_i2c.looks_busy s n last m h)
        (λ t reg p. rw p.1 (wait_tries-Done n fuel t last m (omega arith) p.0))

  -- A state of the controller from which the driver can go on.
  abbrev pub Ready : S → Memory → Type 0
  Ready s m = (n : ℕ) × (last : I2cControlReg) × (n < 50) × Shows s n last m

  wait_busy-Done :
      (n : ℕ) (s : S) (last : I2cControlReg) (m : Memory)
      → n < 50
      → Shows s n last m
      → Done May (wait_busy i chip s) (λ t reg. Shows t 0 last m × (reg ≡ last))
  unfolding wait_busy
  wait_busy-Done n s last m lt h = wait_tries-Done n 50 s last m lt h

  fitting :
      (a : Address) (reg : ℕ) (reply : I2cControlReg)
      → reply.addr ≡ to_readable_hw_addr a
      → reply.reg ≡ reg
      → fits (request (to_readable_hw_addr a) reg 0) reply ≡ true
  fitting a reg reply e e' = ground arith

  reads :
      (a : Address) (reg : ℕ) (s : S) (m : Memory)
      → IsAddress a
      → Byte reg
      → Ready s m
      → Done May (read i chip a reg s) (λ t value. Ready t m × (value ≡ m a.hw reg))
  unfolding read read_tries
  reads a reg s m ha hr (n, last, lt, h) = Done-continue (wait_busy-Done n s last m lt h) (λ t _ p.
      Done-continue (chip_i2c.starts_read t last m a reg ha hr p.0) (λ u _ q.
        Done-continue (wait_busy-Done q.0 u q.1 m q.2 q.3) (λ w reply r.
          rw (r.1, fitting a reg q.1 q.4 q.5) (Done-ok ((0, q.1, omega arith, r.0), q.6)))))

  writes :
      (a : Address) (reg value : ℕ) (s : S) (m : Memory)
      → IsAddress a
      → Byte reg
      → Byte value
      → Ready s m
      → Done May (write i chip a reg value s) (λ t _. Ready t (update m a.hw reg value))
  unfolding write
  writes a reg value s m ha hr hv (n, last, lt, h) =
      Done-continue (wait_busy-Done n s last m lt h) (λ t _ p.
        Done-continue (chip_i2c.starts_write t last m a reg value ha hr hv p.0) (λ u _ q.
          Done-continue (wait_busy-Done q.0 u q.1 (update m a.hw reg value) q.2 q.3)
            (λ w reply r. Done-ok (0, q.1, omega arith, r.0))))

  -- The bus behind a chip whose controller works is a memory: reads give what was written last to the
  -- register of the device, none fails but where the commands to the chip do, and none panics.
  pub hashchip_bus-IsMemory : IsMemory (hashchip_bus i chip) May Ready
  hashchip_bus-IsMemory = record { reads = reads; writes = writes }
