-- ===== src/Bm1387/Commands.antt =====
-- The commands of src/bm1387.rs that are sent to chips, as the bytes that `pack` makes of them. A
-- header is three bytes, and its length counts the checksum, which the FPGA adds.
use kasop.Common.{
  ℕ, ◌+◌, ◌*◌, ◌/◌, ◌%◌, ◌^◌, Bool, not, List, [], ◌∷◌, Outcome, ok, err, ErrorKind, assert,
  if◌then◌else◌, ◌>>=◌, ◌>>◌,
}
use kasop.Bm1387.Address.{ChipAddress, all, is_broadcast, to_hw_addr}

-- `CmdType`.
abbrev pub vil_ctl_cmd : ℕ
vil_ctl_cmd = 0x02

pub record Cmd : Type 0 where
  pub code : ℕ
  pub to_all : Bool
  pub cmd_type : ℕ

-- `Cmd::new`: the code has four bits.
unfoldable pub new_cmd : ℕ → Bool → Cmd
new_cmd code to_all = record { code = code % 2 ^ 4; to_all = to_all; cmd_type = vil_ctl_cmd }

unfoldable pub pack_cmd : Cmd → ℕ
pack_cmd c = c.cmd_type * 2 ^ 5 + (if c.to_all then 1 else 0) * 2 ^ 4 + c.code

pub record CmdHeader : Type 0 where
  pub cmd : Cmd
  pub length : ℕ
  pub hw_addr : ℕ

-- `CmdHeader::new_extended`.
unfoldable pub new_extended : ℕ → ℕ → ChipAddress → ℕ → Outcome CmdHeader
unfolding new_cmd
new_extended code length chip_address checksum_size = do
  hw_addr ← to_hw_addr chip_address
  ok (record {
    cmd = new_cmd code (is_broadcast chip_address);
    length = (length + checksum_size) % 2 ^ 8;
    hw_addr = hw_addr;
  })

-- `CmdHeader::new`.
unfoldable pub new_header : ℕ → ℕ → ChipAddress → Outcome CmdHeader
unfolding new_extended
new_header code length chip_address = new_extended code length chip_address 1

abbrev pub pack_header : CmdHeader → List ℕ → List ℕ
pack_header h rest = pack_cmd h.cmd ∷ h.length ∷ h.hw_addr ∷ rest

-- A 32-bit word, most significant byte first.
abbrev pub be_bytes : ℕ → List ℕ
be_bytes v = v / 2 ^ 24 % 2 ^ 8 ∷ v / 2 ^ 16 % 2 ^ 8 ∷ v / 2 ^ 8 % 2 ^ 8 ∷ v % 2 ^ 8 ∷ []

unfoldable pub set_config_cmd : ChipAddress → ℕ → ℕ → Outcome (List ℕ)
unfolding new_header pack_cmd
set_config_cmd chip_address register value = do
  header ← new_header 0x08 8 chip_address
  ok (pack_header header (register ∷ be_bytes value))

unfoldable pub get_status_cmd : ChipAddress → ℕ → Outcome (List ℕ)
unfolding new_header pack_cmd
get_status_cmd chip_address register = do
  header ← new_header 0x04 4 chip_address
  ok (pack_header header (register ∷ []))

unfoldable pub set_chip_address_cmd : ChipAddress → Outcome (List ℕ)
unfolding new_header pack_cmd
set_chip_address_cmd chip_address = do
  assert (not (is_broadcast chip_address))
  header ← new_header 0x01 4 chip_address
  ok (pack_header header (0 ∷ []))

unfoldable pub inactivate_from_chain_cmd : Outcome (List ℕ)
unfolding new_header pack_cmd
inactivate_from_chain_cmd = do header ← new_header 0x05 4 all; ok (pack_header header (0 ∷ []))

pub record CmdResponse : Type 0 where
  pub value : ℕ
  pub chip_address : ℕ
  pub register : ℕ

-- `CmdResponse::unpack_from_slice`: a slice of another length is an error of the library.
unfoldable pub unpack_response : List ℕ → Outcome CmdResponse
unpack_response (a ∷ b ∷ c ∷ d ∷ e ∷ f ∷ []) =
    ok
      (record { value = ((a * 2 ^ 8 + b) * 2 ^ 8 + c) * 2 ^ 8 + d; chip_address = e; register = f })
unpack_response other = err ErrorKind.general
