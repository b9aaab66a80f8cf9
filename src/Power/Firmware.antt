-- ===== src/Power/Firmware.antt =====
-- src/power/firmware.rs: programs for the PIC. The file is its lines, each read or failed; what
-- `from_str_radix` gives for a line is a parameter.
use kasop.Common.{
  ℕ, ◌/◌, ◌%◌, ◌^◌, List, [], ◌∷◌, ◌++◌, Outcome, ok, err, panic, ErrorKind, length, ◌==◌, ◌>>=◌,
  ◌>>◌, require,
}
use kasop.Power.Flash.{PicAddress, PicWords, distance_to, to_bytes}

abbrev pub program_load_address : PicAddress
program_load_address = record { address = 0x0300 }

abbrev pub program_load_end_address : PicAddress
program_load_end_address = record { address = 0x0f7f }

pub record PicProgram : Type 0 where
  pub load_addr : PicAddress
  pub prog_size : PicWords
  pub bytes : List ℕ

-- `PicProgram::from_bytes`.
unfoldable pub from_bytes : List ℕ → Outcome PicProgram
from_bytes bytes = do
  prog_size ← distance_to program_load_address program_load_end_address
  require (length bytes == to_bytes prog_size) ErrorKind.power
  ok (record { load_addr = program_load_address; prog_size = prog_size; bytes = bytes })

module _ {L : Type 0} (from_str_radix_16 : L → Outcome ℕ) where
  -- A line that cannot be read or parsed.
  unfoldable pub parse_line : Outcome L → Outcome ℕ
  parse_line line = line >>= from_str_radix_16

  -- `with_context` replaces the error.
  unfoldable pub with_context : Outcome ℕ → Outcome ℕ
  with_context (ok word) = ok word
  with_context (err kind) = err ErrorKind.power
  with_context panic = panic

  unfoldable pub read_lines : List (Outcome L) → List ℕ → Outcome (List ℕ)
  read_lines [] bytes = ok bytes
  read_lines (line ∷ lines) bytes = do
    word ← with_context (parse_line line)
    read_lines lines (bytes ++ word / 2 ^ 8 % 2 ^ 8 ∷ word % 2 ^ 8 ∷ [])

  -- `PicProgram::read` of a file that opens.
  unfoldable pub read_program : List (Outcome L) → Outcome PicProgram
  read_program lines = do bytes ← read_lines lines []; from_bytes bytes
