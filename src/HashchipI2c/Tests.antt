-- ===== src/HashchipI2c/Tests.antt =====
-- A chip with an I2C controller that is busy for two reads after each request.
use kasop.Common.{ℕ, zero, suc, ◌<◌, List, [], ◌∷◌, Outcome, ok, ◌>>=◌, refl, arith}
use kasop.Bm1387.Address.{ChipAddress, is_broadcast}
use kasop.Bm1387.Registers.{Register, pack_i2c_control, unpack_i2c_control}
use kasop.Command.Interface.{CommandInterface, read_one_register}
use kasop.I2c.Memory.{IsMemory}
use kasop.HashchipI2c.{is_busy, hashchip_bus}
use kasop.HashchipI2c.Waiting.{look, behind, Busy, Over}
use kasop.HashchipI2c.FakeChip.{Shows, fake_chip, fake_chip-IsController}
use kasop.HashchipI2c.Transfer.{Ready, hashchip_bus-IsMemory}

abbrev chip : ChipAddress
chip = ChipAddress.one 5

-- A controller that counts down from the number that it is started with.
abbrev busy_word : ℕ
busy_word = 0x80000000

abbrev idle_word : ℕ
idle_word = 0x01000000

abbrev one_of : {T : Type 0} → Outcome T → Outcome (List T)
one_of o = o >>= λ r. ok (r ∷ [])

abbrev count_down : {T : Type 0} → Register T → ℕ → ℕ × Outcome (List T)
count_down reg zero = (0, one_of (reg.from_reg idle_word))
count_down reg (suc n) = (n, one_of (reg.from_reg busy_word))

abbrev counting : CommandInterface ℕ
counting = record {
  read_register = λ reg a s. count_down reg s;
  write_register = λ reg a value s. (2, ok tt);
}

early : (j : ℕ) → j < 2 → Busy (look counting chip (behind counting chip j 2))
unfolding read_one_register is_broadcast is_busy unpack_i2c_control pack_i2c_control
early zero lt = refl
early (suc zero) lt = refl
early (suc (suc j)) lt = absurd (omega arith)

third : Over (look counting chip (behind counting chip 2 2))
unfolding read_one_register is_broadcast is_busy unpack_i2c_control pack_i2c_control
third = refl

hashchip_bus-IsMemory_example :
    IsMemory
      (hashchip_bus fake_chip (ChipAddress.one 5))
      ⊥
      (Ready fake_chip (ChipAddress.one 5) ⊥ Shows (fake_chip-IsController 5))
hashchip_bus-IsMemory_example =
    hashchip_bus-IsMemory fake_chip (ChipAddress.one 5) ⊥ Shows (fake_chip-IsController 5)
