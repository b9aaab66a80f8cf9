-- ===== src/Counters.antt =====
-- src/counters.rs: the counters of valid nonces and of errors, for each core, each chip and the whole
-- hashchain. `usize` has 32 bits on the board, and `+=` is written with its wrap-around.
pub mod Totals
pub mod Count
pub mod Resize
mod Tests
use kasop.Common.{
  ℕ, ◌+◌, ◌-◌, ◌%◌, ◌^◌, List, [], ◌∷◌, ◌++◌, map, length, get_elem?, set, take, replicate, Option,
  none, some, leb, if◌then◌else◌, Outcome, ok, expect, ◌>>=◌,
}
use kasop.Bm1387.Address.{CoreAddress}

pub record Core : Type 0 where
  pub valid : ℕ
  pub errors : ℕ

pub record Chip : Type 0 where
  pub core : List Core
  pub valid : ℕ
  pub errors : ℕ

pub record HashChain : Type 0 where
  pub chip : List Chip
  pub valid : ℕ
  pub errors : ℕ
  pub started : ℕ
  pub stopped : Option ℕ
  pub asic_difficulty : ℕ

abbrev pub core_adr_space_size : ℕ
core_adr_space_size = 128

abbrev pub add : ℕ → ℕ → ℕ
add a b = (a + b) % 2 ^ 32

abbrev pub new_core : Core
new_core = record { valid = 0; errors = 0 }

abbrev pub reset_core : Core → Core
reset_core c = record { valid = 0; errors = 0 }

unfoldable pub new_chip : Chip
new_chip = record { core = replicate core_adr_space_size new_core; valid = 0; errors = 0 }

unfoldable pub reset_chip : Chip → Chip
reset_chip c = record { core = map reset_core c.core; valid = 0; errors = 0 }

unfoldable pub new_hash_chain : ℕ → ℕ → ℕ → HashChain
unfolding new_chip
new_hash_chain chip_count asic_difficulty now = record {
  chip = replicate chip_count new_chip;
  valid = 0;
  errors = 0;
  started = now;
  stopped = none;
  asic_difficulty = asic_difficulty;
}

unfoldable pub reset : HashChain → ℕ → HashChain
unfolding reset_chip
reset h now = record h { chip = map reset_chip h.chip; valid = 0; errors = 0; started = now }

pub snapshot : HashChain → ℕ → HashChain
snapshot h now = record h { stopped = some now }

pub duration : HashChain → ℕ → ℕ
duration h now = elim h.stopped [ none ↦ now - h.started | some at ↦ at - h.started ]

unfoldable pub add_valid_core : Core → ℕ → Core
add_valid_core c n = record c { valid = add c.valid n }

unfoldable pub add_valid_chip : ℕ → ℕ → Chip → Outcome Chip
unfolding add_valid_core
add_valid_chip core n c = expect (get_elem? c.core core) >>= λ old.
    ok (record c { valid = add c.valid n; core = set c.core core (add_valid_core old n) })

unfoldable pub add_error_core : Core → Core
add_error_core c = record c { errors = add c.errors 1 }

unfoldable pub add_error_chip : ℕ → Chip → Outcome Chip
unfolding add_error_core
add_error_chip core c = expect (get_elem? c.core core) >>= λ old.
    ok (record c { errors = add c.errors 1; core = set c.core core (add_error_core old) })

unfoldable pub add_valid : CoreAddress → HashChain → Outcome HashChain
unfolding add_valid_chip
add_valid addr h = if leb (length h.chip) addr.chip then ok h else do
  old ← expect (get_elem? h.chip addr.chip)
  new ← add_valid_chip addr.core h.asic_difficulty old
  ok (record h { valid = add h.valid h.asic_difficulty; chip = set h.chip addr.chip new })

unfoldable pub add_error : CoreAddress → HashChain → Outcome HashChain
unfolding add_error_chip
add_error addr h = if leb (length h.chip) addr.chip then ok h else do
  old ← expect (get_elem? h.chip addr.chip)
  new ← add_error_chip addr.core old
  ok (record h { errors = add h.errors 1; chip = set h.chip addr.chip new })

-- `Vec::resize`.
unfoldable pub set_chip_count : ℕ → HashChain → HashChain
unfolding new_chip
set_chip_count chip_count h = record h {
  chip = take chip_count h.chip ++ replicate (chip_count - length h.chip) new_chip;
}

abbrev pub chip_count : HashChain → ℕ
chip_count h = length h.chip
