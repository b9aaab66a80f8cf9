-- ===== src/Power/Badcore.antt =====
-- `FlashBadcore` of src/power.rs: the section of the flash that counts the bad cores of each chip.
use kasop.Common.{
  ℕ, ◌+◌, ◌/◌, ◌%◌, ◌^◌, bit_and, List, Option, none, some, Outcome, ok, length, assert, ◌==◌, not,
  if◌then◌else◌, ◌>>=◌, ◌>>◌,
}
use kasop.Power.Flash.{PicAddress, PicWords, collect, at, num_chips}

pub record FlashBadcore : Type 0 where
  pub bad_cores : List ℕ

abbrev pub start : PicAddress
start = record { address = 0xf80 }

abbrev pub len : PicWords
len = record { words = 0x20 }

abbrev pub magic : ℕ
magic = 0x23

unfoldable pub bad_core : List ℕ → ℕ → Outcome ℕ
bad_core bytes i =
    if i % 2 == 0
    then (do b ← at bytes (i + 1); ok (b / 2 ^ 4))
    else (do b ← at bytes i; ok (bit_and b 0x0f))

unfoldable pub parse_valid : List ℕ → ℕ → Outcome (Option FlashBadcore)
parse_valid bytes first =
    if not (first == magic)
    then ok none
    else (do cores ← collect (bad_core bytes) 0 num_chips; ok (some (record { bad_cores = cores })))

unfoldable pub parse : List ℕ → Outcome (Option FlashBadcore)
parse bytes = do assert (length bytes == 0x40); first ← at bytes 0; parse_valid bytes first
