-- ===== src/HashchipI2c/FakeChip.antt =====
-- A chip with a working I2C controller, for tests.
use kasop.Common.{
  ℕ, zero, suc, ◌+◌, ◌*◌, ◌/◌, ◌-◌, ◌<◌, ◌%◌, ◌^◌, Bool, true, false, List, [], ◌∷◌, Outcome, ok,
  ◌>>=◌, ◌==◌, if◌then◌else◌, ◌≡◌, refl, ap, subst, arith, bit_or, ◌&&◌, ◌∙◌, sym,
}
use kasop.Common.Bits.Fields.{or_as_sum}
use kasop.Common.Done.{Done, Done-ok}
use kasop.Bm1387.Address.{ChipAddress, is_broadcast}
use kasop.Bm1387.Registers.{
  Register, I2cControlReg, i2c_control_reg, pack_i2c_control, unpack_i2c_control,
}
use kasop.Bm1387.Packing.{AreBytes, unpack-pack_i2c_control}
use kasop.Command.Interface.{CommandInterface, read_one_register}
use kasop.I2c.{Address, to_readable_hw_addr, to_writable_hw_addr}
use kasop.I2c.Memory.{Memory, update, IsAddress, Byte}
use kasop.HashchipI2c.{is_busy, request}
use kasop.HashchipI2c.Transfer.{IsController, is_busy_lem}

pub record FakeChip : Type 0 where
  pub busy_ticks : ℕ
  pub last : I2cControlReg
  pub memory : Memory

abbrev busy_word : ℕ
busy_word = 0x80000000

abbrev one_of : {T : Type 0} → Outcome T → Outcome (List T)
one_of o = o >>= λ r. ok (r ∷ [])

abbrev look_at : {T : Type 0} → Register T → ℕ → FakeChip → FakeChip × Outcome (List T)
look_at reg zero s = (s, one_of (reg.from_reg (pack_i2c_control s.last)))
look_at reg (suc n) s = (record s { busy_ticks = n }, one_of (reg.from_reg busy_word))

-- A request has an odd address to write, and an even one to read.
abbrev obey : I2cControlReg → FakeChip → FakeChip
obey r s =
    if r.addr % 2 == 1
    then record s { busy_ticks = 2; last = r; memory = update s.memory (r.addr - 1) r.reg r.value }
    else record s { busy_ticks = 2; last = record r { value = s.memory r.addr r.reg } }

abbrev pub fake_chip : CommandInterface FakeChip
fake_chip = record {
  read_register = λ reg a s. look_at reg s.busy_ticks s;
  write_register = λ reg a value s. (obey (unpack_i2c_control (reg.to_reg value)) s, ok tt);
}

pub record Shows (s : FakeChip) (n : ℕ) (last : I2cControlReg) (m : Memory) : Type 0 where
  pub state : s ≡ record { busy_ticks = n; last = last; memory = m }
  pub bytes : AreBytes last
  pub idle : last.flags.busy ≡ false
  pub cells : (a r : ℕ) → m a r < 2 ^ 8

request-AreBytes :
    (addr reg value : ℕ) → Byte addr → Byte reg → Byte value → AreBytes (request addr reg value)
request-AreBytes addr reg value ha hr hv = record { addr = ha; reg = hr; value = hv }

writable : (a : Address) → IsAddress a → to_writable_hw_addr a ≡ a.hw + 1
unfolding to_writable_hw_addr
writable a h =
    let e : a.hw ≡ a.hw / 2 * 2 ^ 1 = omega (arith, h.even) in
    ap (λ n. bit_or n 1) e ∙ or_as_sum 1 (a.hw / 2) 1 (omega arith) ∙ omega (arith, h.even)

module _ (chip : ℕ) where
  looks_busy :
      (s : FakeChip) (n : ℕ) (last : I2cControlReg) (m : Memory)
      → Shows s (suc n) last m
      → Done ⊥
          (read_one_register fake_chip i2c_control_reg (ChipAddress.one chip) s)
          (λ t reg. Shows t n last m × (is_busy reg ≡ true))
  unfolding read_one_register is_broadcast unpack_i2c_control is_busy pack_i2c_control
  looks_busy s n last m h =
      subst
        (λ u.
          Done ⊥ (read_one_register fake_chip i2c_control_reg (ChipAddress.one chip) u)
            (λ t reg. Shows t n last m × (is_busy reg ≡ true)))
        (sym h.state)
        (Done-ok (record { state = refl; bytes = h.bytes; idle = h.idle; cells = h.cells }, refl))

  looks_idle :
      (s : FakeChip) (last : I2cControlReg) (m : Memory)
      → Shows s 0 last m
      → Done ⊥
          (read_one_register fake_chip i2c_control_reg (ChipAddress.one chip) s)
          (λ t reg. Shows t 0 last m × (reg ≡ last) × (is_busy reg ≡ false))
  unfolding read_one_register is_broadcast
  looks_idle s last m h =
      subst
        (λ u.
          Done ⊥ (read_one_register fake_chip i2c_control_reg (ChipAddress.one chip) u)
            (λ t reg. Shows t 0 last m × (reg ≡ last) × (is_busy reg ≡ false)))
        (sym h.state)
        (Done-ok (
          record { state = refl; bytes = h.bytes; idle = h.idle; cells = h.cells },
          unpack-pack_i2c_control last h.bytes,
          ap is_busy (unpack-pack_i2c_control last h.bytes) ∙ is_busy_lem last h.bytes ∙ h.idle,
        ))

  starts_read :
      (s : FakeChip) (last : I2cControlReg) (m : Memory) (a : Address) (reg : ℕ)
      → IsAddress a
      → Byte reg
      → Shows s 0 last m
      → Done ⊥
          (fake_chip.write_register i2c_control_reg
            (ChipAddress.one chip)
            (request (to_readable_hw_addr a) reg 0)
            s)
          (λ t _.
            (n : ℕ) × (reply : I2cControlReg) × (n < 50)
            × Shows t n reply m
            × (reply.addr ≡ to_readable_hw_addr a)
            × (reply.reg ≡ reg)
            × (reply.value ≡ m a.hw reg))
  unfolding to_readable_hw_addr
  starts_read s last m a reg ha hr h =
      let even : (a.hw % 2 == 1) ≡ false = ground (arith, ha.even) in
      rw
        (
          h.state,
          unpack-pack_i2c_control (request a.hw reg 0)
              (request-AreBytes a.hw reg 0 ha.small hr (omega arith)),
          even,
        )
        (Done-ok (
          2,
          record (request a.hw reg 0) { value = m a.hw reg },
          omega arith,
          record {
            state = refl;
            bytes = record { addr = ha.small; reg = hr; value = h.cells a.hw reg };
            idle = refl;
            cells = h.cells;
          },
          refl,
          refl,
          refl,
        ))

  starts_write :
      (s : FakeChip) (last : I2cControlReg) (m : Memory) (a : Address) (reg value : ℕ)
      → IsAddress a
      → Byte reg
      → Byte value
      → Shows s 0 last m
      → Done ⊥
          (fake_chip.write_register i2c_control_reg
            (ChipAddress.one chip)
            (request (to_writable_hw_addr a) reg value)
            s)
          (λ t _.
            (n : ℕ) × (reply : I2cControlReg) × (n < 50)
            × Shows t n reply (update m a.hw reg value))
  starts_write s last m a reg value ha hr hv h =
      let odd : ((a.hw + 1) % 2 == 1) ≡ true = ground (arith, ha.even) in
      let back : a.hw + 1 - 1 ≡ a.hw = omega arith in
      let small : a.hw + 1 < 2 ^ 8 = omega (arith, ha.even, ha.small) in
      rw
        (
          h.state,
          writable a ha,
          unpack-pack_i2c_control (request (a.hw + 1) reg value)
              (request-AreBytes (a.hw + 1) reg value small hr hv),
          odd,
          back,
        )
        (Done-ok (
          2,
          request (a.hw + 1) reg value,
          omega arith,
          record {
            state = refl;
            bytes = request-AreBytes (a.hw + 1) reg value small hr hv;
            idle = refl;
            cells = λ hw r. stored (hw == a.hw && r == reg) (m hw r) (h.cells hw r);
          },
        ))
    where
      stored : (b : Bool) (old : ℕ) → old < 2 ^ 8 → (if b then value else old) < 2 ^ 8
      stored true old lt = hv
      stored false old lt = lt

  pub fake_chip-IsController : IsController fake_chip (ChipAddress.one chip) ⊥ Shows
  fake_chip-IsController = record {
    looks_busy = looks_busy;
    looks_idle = looks_idle;
    starts_read = starts_read;
    starts_write = starts_write;
  }
