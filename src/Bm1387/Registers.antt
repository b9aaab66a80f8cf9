-- ===== src/Bm1387/Registers.antt =====
-- The registers of src/bm1387.rs, with their packing into 32-bit words.
use kasop.Common.{
  ℕ, zero, suc, ◌+◌, ◌-◌, ◌*◌, ◌/◌, ◌%◌, ◌^◌, Bool, true, false, not, ◌&&◌, ◌||◌, Outcome, ok,
  ErrorKind, require, ◌==◌, if◌then◌else◌, ◌>>◌,
}

-- The trait `Register`: `from_reg` panics on a word that is no value of the type.
pub record Register (T : Type 0) : Type 0 where
  pub reg_num : ℕ
  pub from_reg : ℕ → Outcome T
  pub to_reg : T → ℕ
  pub same : T → T → Bool

abbrev pub bit : Bool → ℕ
bit b = if b then 1 else 0

-- The digit of a word at a place.
abbrev pub bit_at : ℕ → ℕ → Bool
bit_at word k = word / 2 ^ k % 2 == 1

abbrev pub byte_at : ℕ → ℕ → ℕ
byte_at word k = word / 2 ^ k % 2 ^ 8

abbrev pub same_bool : Bool → Bool → Bool
same_bool true b = b
same_bool false b = not b

pub record HashrateReg : Type 0 where
  pub hashrate24 : ℕ

-- In a `u64`.
unfoldable pub hashrate : HashrateReg → ℕ
hashrate r = r.hashrate24 * 2 ^ 24 % 2 ^ 64

abbrev pub hashrate_reg : Register HashrateReg
hashrate_reg = record {
  reg_num = 0x08;
  from_reg = λ word. ok (record { hashrate24 = word });
  to_reg = λ r. r.hashrate24;
  same = λ a b. a.hashrate24 == b.hashrate24;
}

pub record I2cControlFlags : Type 0 where
  pub busy : Bool
  pub do_command : Bool

pub record I2cControlReg : Type 0 where
  pub flags : I2cControlFlags
  pub addr : ℕ
  pub reg : ℕ
  pub value : ℕ

unfoldable pub pack_i2c_control : I2cControlReg → ℕ
pack_i2c_control r =
    (bit r.flags.busy * 2 ^ 7 + bit r.flags.do_command) * 2 ^ 24
    + r.addr * 2 ^ 16
    + r.reg * 2 ^ 8
    + r.value

unfoldable pub unpack_i2c_control : ℕ → I2cControlReg
unpack_i2c_control word = record {
  flags = record { busy = bit_at word 31; do_command = bit_at word 24 };
  addr = byte_at word 16;
  reg = byte_at word 8;
  value = byte_at word 0;
}

unfoldable pub same_i2c_control : I2cControlReg → I2cControlReg → Bool
same_i2c_control a b =
    same_bool a.flags.busy b.flags.busy
    && same_bool a.flags.do_command b.flags.do_command
    && a.addr == b.addr
    && a.reg == b.reg
    && a.value == b.value

abbrev pub i2c_control_reg : Register I2cControlReg
i2c_control_reg = record {
  reg_num = 0x20;
  from_reg = λ word. ok (unpack_i2c_control word);
  to_reg = pack_i2c_control;
  same = same_i2c_control;
}

-- `chip_rev` keeps what is not a known revision, so it is its number.
pub record GetAddressReg : Type 0 where
  pub chip_rev : ℕ
  pub reserved : ℕ
  pub addr : ℕ

abbrev pub chip_rev_bm1387 : ℕ
chip_rev_bm1387 = 0x1387

unfoldable pub unpack_get_address : ℕ → GetAddressReg
unpack_get_address word = record {
  chip_rev = word / 2 ^ 16 % 2 ^ 16;
  reserved = byte_at word 8;
  addr = byte_at word 0;
}

unfoldable pub pack_get_address : GetAddressReg → ℕ
pack_get_address r = r.chip_rev * 2 ^ 16 + r.reserved * 2 ^ 8 + r.addr

abbrev pub get_address_reg : Register GetAddressReg
get_address_reg = record {
  reg_num = 0x00;
  from_reg = λ word. ok (unpack_get_address word);
  to_reg = pack_get_address;
  same = λ a b. a.chip_rev == b.chip_rev && a.reserved == b.reserved && a.addr == b.addr;
}

pub record TicketMaskReg : Type 0 where
  pub ticket_mask : ℕ

-- `reverse_bits` of a word of so many bits.
unfoldable pub reverse_bits : ℕ → ℕ → ℕ
reverse_bits zero x = 0
reverse_bits (suc n) x = x % 2 * 2 ^ n + reverse_bits n (x / 2)

unfoldable pub swap_bytes : ℕ → ℕ
swap_bytes x = byte_at x 0 * 2 ^ 24 + byte_at x 8 * 2 ^ 16 + byte_at x 16 * 2 ^ 8 + byte_at x 24

-- `u32::is_power_of_two`, by the powers below an exponent.
unfoldable pub is_power_of_two : ℕ → ℕ → Bool
is_power_of_two zero x = false
is_power_of_two (suc k) x = x == 2 ^ k || is_power_of_two k x

-- `TicketMaskReg::new`.
unfoldable pub new_ticket_mask : ℕ → Outcome TicketMaskReg
unfolding reverse_bits swap_bytes is_power_of_two
new_ticket_mask difficulty = do
  require (not (difficulty == 0)) ErrorKind.general
  require (is_power_of_two 32 difficulty) ErrorKind.general
  ok (record { ticket_mask = swap_bytes (reverse_bits 32 (difficulty - 1)) })

abbrev pub ticket_mask_reg : Register TicketMaskReg
ticket_mask_reg = record {
  reg_num = 0x18;
  from_reg = λ word. ok (record { ticket_mask = word });
  to_reg = λ r. r.ticket_mask;
  same = λ a b. a.ticket_mask == b.ticket_mask;
}
