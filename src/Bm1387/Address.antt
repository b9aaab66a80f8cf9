-- ===== src/Bm1387/Address.antt =====
-- `ChipAddress` and `CoreAddress` of src/bm1387.rs.
use kasop.Common.{ℕ, ◌*◌, ◌/◌, ◌^◌, bit_and, Outcome, ok, panic, Bool, true, false, leb}
use kasop.Common.{if◌then◌else◌}

pub data ChipAddress : Type 0 where
  all : ChipAddress
  one : ℕ → ChipAddress

unfoldable pub is_broadcast : ChipAddress → Bool
is_broadcast all = true
is_broadcast (one x) = false

-- The conversion into a `u8` panics on an address that does not fit.
unfoldable pub to_hw_addr : ChipAddress → Outcome ℕ
to_hw_addr all = ok 0
to_hw_addr (one x) = if leb (x * 4) 255 then ok (x * 4) else panic

pub record CoreAddress : Type 0 where
  pub chip : ℕ
  pub core : ℕ

-- `CoreAddress::new`.
unfoldable pub core_address : ℕ → CoreAddress
core_address nonce = record {
  chip = bit_and (nonce / 2 ^ 2) 0x3f;
  core = bit_and (nonce / 2 ^ 24) 0x7f;
}
