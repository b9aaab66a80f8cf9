-- ===== src/Power/Freq.antt =====
-- `FlashFreq` of src/power.rs: the section of the flash with the frequencies of the chips.
use kasop.Common.{
  ℕ, ◌+◌, ◌-◌, ◌*◌, ◌%◌, ◌^◌, bit_and, bit_or, List, Option, none, some, Outcome, ok, length,
  assert, ◌==◌, not, if◌then◌else◌, ◌>>=◌, ◌>>◌,
}
use kasop.Power.Flash.{PicAddress, PicWords, collect, at, num_chips}

pub record FlashFreq : Type 0 where
  pub pic_temp_offset : ℕ
  pub base_freq_index : ℕ
  pub freq_index : List ℕ

abbrev pub start : PicAddress
start = record { address = 0xfa0 }

abbrev pub len : PicWords
len = record { words = 0x40 }

abbrev pub magic : ℕ
magic = 0x7d

unfoldable pub step_down_of : ℕ → ℕ
step_down_of b = if bit_and b 0x3f == 0x3f then 0 else bit_and b 0x3f

unfoldable pub two_nibbles : ℕ → ℕ → ℕ
two_nibbles high low = bit_or (bit_and high 0x0f * 2 ^ 4) (bit_and low 0x0f)

-- The difference of two bytes wraps around.
unfoldable pub chip_freq : List ℕ → ℕ → ℕ → Outcome ℕ
chip_freq bytes step_down i = do b ← at bytes (3 + i * 2); ok ((b + 2 ^ 8 - step_down) % 2 ^ 8)

unfoldable pub parse_valid : List ℕ → Outcome (Option FlashFreq)
parse_valid bytes = do
  b0 ← at bytes 0
  b2 ← at bytes 2
  b4 ← at bytes 4
  b6 ← at bytes 6
  b8 ← at bytes 8
  freqs ← collect (chip_freq bytes (step_down_of b0)) 0 num_chips
  ok (
      some (record {
        pic_temp_offset = two_nibbles b2 b4;
        base_freq_index = two_nibbles b6 b8;
        freq_index = freqs;
      }))

unfoldable pub parse : List ℕ → Outcome (Option FlashFreq)
parse bytes = do
  assert (length bytes == 0x80)
  valid ← at bytes 1
  if not (valid == magic) then ok none else parse_valid bytes
