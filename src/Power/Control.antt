-- ===== src/Power/Control.antt =====
-- `Control` of src/power.rs: the operations of a voltage controller. Those on the flash need only the
-- backend, and are actions on the bus; the others also change the fields of `Control`.
use kasop.Common.{
  ℕ, zero, suc, ◌+◌, ◌*◌, ◌/◌, ◌%◌, ◌^◌, List, [], ◌∷◌, ◌++◌, get_elem?, length, take, drop,
  replicate, Outcome, ErrorKind, assert, require, expect, ◌==◌,
}
use kasop.Common.Actions.{Action, ◌>>=◌, ◌>>◌, return, lift}
use kasop.Power.{
  AsyncI2cDev, set_pic_flash_pointer, send_data_command, read_data_command, erase_iic_flash,
  write_data_into_pic, jump_command, reset_pic, get_pic_flash_pointer, enable_voltage_command,
  heart_beat_command, get_pic_software_version, get_voltage_command, rd_temp_offset_value,
}
use kasop.Power.Backend
use kasop.Power.Flash.{PicAddress, PicWords, to_bytes, offset, blocks}
use kasop.Power.Firmware.{PicProgram}

abbrev pub flash_sector_words : ℕ
flash_sector_words = 32

abbrev pub flash_xfer_block_size_bytes : ℕ
flash_xfer_block_size_bytes = 16

-- `slice::chunks`. A round for each element is enough.
unfoldable pub chunks : ℕ → ℕ → List ℕ → List (List ℕ)
chunks size zero xs = []
chunks size (suc rounds) [] = []
chunks size (suc rounds) (x ∷ xs) = take size (x ∷ xs) ∷ chunks size rounds (drop size (x ∷ xs))

unfoldable pub from_be_bytes : ℕ → List ℕ → ℕ
from_be_bytes acc [] = acc
from_be_bytes acc (b ∷ bs) = from_be_bytes (acc * 2 ^ 8 + b) bs

-- The pointer behind the program, as `program_pic` compares it.
unfoldable pub check_end : PicProgram → PicAddress → Outcome (Unit {0})
check_end program end =
    require (end.address == (offset program.load_addr program.prog_size).address) ErrorKind.power

module _ {B : Type 0} (inner : AsyncI2cDev B) (hashboard_idx : ℕ) where
  abbrev pub read : ℕ → ℕ → Action B (List ℕ)
  read command length = Backend.read inner hashboard_idx command length

  abbrev pub write : ℕ → List ℕ → Action B (Unit {0})
  write command bytes = Backend.write inner hashboard_idx command bytes

  unfoldable pub send_data_to_iic : List ℕ → Action B (Unit {0})
  send_data_to_iic bytes = write send_data_command bytes

  unfoldable pub erase_flash_sector : Action B (Unit {0})
  erase_flash_sector = write erase_iic_flash []

  unfoldable pub write_data_to_flash : Action B (Unit {0})
  write_data_to_flash = write write_data_into_pic []

  -- The bytes of the address, most significant first.
  unfoldable pub set_flash_pointer : PicAddress → Action B (Unit {0})
  set_flash_pointer a =
      write set_pic_flash_pointer (a.address / 2 ^ 8 % 2 ^ 8 ∷ a.address % 2 ^ 8 ∷ [])

  unfoldable pub get_flash_pointer : Action B PicAddress
  get_flash_pointer = do
    address_bytes ← read get_pic_flash_pointer 2
    lift (assert (length address_bytes == 2))
    return (record { address = from_be_bytes 0 address_bytes })

  unfoldable pub set_flash_pointer_check : PicAddress → Action B (Unit {0})
  set_flash_pointer_check want_address = do
    set_flash_pointer want_address
    current_address ← get_flash_pointer
    lift (require (current_address.address == want_address.address) ErrorKind.power)

  unfoldable pub read_data_from_iic : Action B (List ℕ)
  read_data_from_iic = do
    bytes ← read read_data_command flash_xfer_block_size_bytes
    lift (assert (length bytes == flash_xfer_block_size_bytes))
    return bytes

  unfoldable pub erase_sectors : ℕ → Action B (Unit {0})
  erase_sectors zero = return tt
  erase_sectors (suc num_blocks) = erase_flash_sector >> erase_sectors num_blocks

  unfoldable pub erase_flash : PicAddress → PicWords → Action B (Unit {0})
  erase_flash start num_words = do
    lift (assert (start.address % flash_sector_words == 0))
    lift (assert ((blocks num_words.words flash_sector_words).1 == 0))
    set_flash_pointer_check start
    erase_sectors (blocks num_words.words flash_sector_words).0

  unfoldable pub read_blocks : ℕ → Action B (List ℕ)
  read_blocks zero = return []
  read_blocks (suc num_blocks) = do
    block ← read_data_from_iic
    rest ← read_blocks num_blocks
    return (block ++ rest)

  unfoldable pub read_flash : PicAddress → PicWords → Action B (List ℕ)
  read_flash start num_words = do
    lift (assert ((blocks (to_bytes num_words) flash_xfer_block_size_bytes).1 == 0))
    set_flash_pointer_check start
    read_blocks (blocks (to_bytes num_words) flash_xfer_block_size_bytes).0

  unfoldable pub write_chunks : List (List ℕ) → Action B (Unit {0})
  write_chunks [] = return tt
  write_chunks (chunk ∷ rest) = do send_data_to_iic chunk; write_data_to_flash; write_chunks rest

  unfoldable pub write_flash : PicAddress → List ℕ → Action B (Unit {0})
  write_flash start bytes = do
    lift (assert ((blocks (length bytes) flash_xfer_block_size_bytes).1 == 0))
    set_flash_pointer_check start
    write_chunks (chunks flash_xfer_block_size_bytes (length bytes) bytes)

  -- Sixteen bytes that are no command, so that the parser of the PIC starts afresh.
  unfoldable pub reset : Action B (Unit {0})
  reset = do write 0x00 (replicate 16 0); write reset_pic []

  unfoldable pub jump_from_loader_to_app : Action B (Unit {0})
  jump_from_loader_to_app = write jump_command []

  unfoldable pub read_one : ℕ → Action B ℕ
  read_one command = do bytes ← read command 1; lift (expect (get_elem? bytes 0))

  unfoldable pub get_version : Action B ℕ
  get_version = read_one get_pic_software_version

  unfoldable pub get_voltage : Action B ℕ
  get_voltage = read_one get_voltage_command

  unfoldable pub enable_voltage : Action B (Unit {0})
  enable_voltage = write enable_voltage_command (1 ∷ [])

  unfoldable pub disable_voltage : Action B (Unit {0})
  disable_voltage = write enable_voltage_command (0 ∷ [])

  unfoldable pub send_heart_beat : Action B (Unit {0})
  send_heart_beat = write heart_beat_command []

  unfoldable pub get_temperature_offset : Action B ℕ
  get_temperature_offset = do
    bytes ← read rd_temp_offset_value 8
    lift (assert (length bytes == 8))
    return (from_be_bytes 0 bytes)

  unfoldable pub program_pic : PicProgram → Action B (Unit {0})
  program_pic program = do
    lift (require (length program.bytes % flash_xfer_block_size_bytes == 0) ErrorKind.power)
    reset
    erase_flash program.load_addr program.prog_size
    write_flash program.load_addr program.bytes
    end ← get_flash_pointer
    lift (check_end program end)
