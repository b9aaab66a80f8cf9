-- ===== src/Stratum/Settings.antt =====
-- src/client/stratum.rs: `set_extranonce` and `set_difficulty`. Arithmetic is that of a release
-- build, in which a shift by too many bits takes their number modulo the width.
pub mod Difficulty
pub mod Extranonce
use kasop.Common.{
  ℕ, zero, suc, ◌+◌, ◌-◌, ◌*◌, ◌/◌, ◌%◌, ◌^◌, Bool, true, false, List, [], ◌∷◌, Option, none, some,
  set, ltb, leb, ◌==◌, ◌&&◌, if◌then◌else◌, Outcome, ok, err, panic, ErrorKind, ◌>>=◌,
}
use kasop.Common.Int.{ℤ, pos, negsuc, ◌+ℤ◌}
use kasop.Target.{Uint256, default}
use kasop.Stratum.{Text, StratumHandler}

-- `char::to_digit(16)` of a byte.
unfoldable pub to_digit : ℕ → Option ℕ
to_digit c =
    if leb 48 c && leb c 57
    then some (c - 48)
    else if leb 97 c && leb c 102
    then some (c - 87)
    else if leb 65 c && leb c 70
    then some (c - 55)
    else none

-- The digits of `u64::from_str_radix(_, 16)` after what was read, with both overflows refused.
unfoldable pub read_digits : ℕ → Text → Option ℕ
read_digits read [] = some read
read_digits read (c ∷ text) = elim (to_digit c) [
  | none ↦ none
  | some digit ↦
      if ltb (read * 16 + digit) (2 ^ 64) then read_digits (read * 16 + digit) text else none
]

-- `u64::from_str_radix(_, 16)`, which skips a plus sign.
unfoldable pub from_str_radix : Text → Option ℕ
from_str_radix [] = none
from_str_radix (c ∷ []) = read_digits 0 (c ∷ [])
from_str_radix (c ∷ d ∷ text) =
    if c == 43 then read_digits 0 (d ∷ text) else read_digits 0 (c ∷ d ∷ text)

-- The bits of a shift by `nonce_size` bytes.
abbrev pub shift_of : ℕ → ℕ
shift_of nonce_size = nonce_size * 8 % 2 ^ 32 % 64

-- A handler that a function leaves, and its result.
pub record Settled : Type 0 where
  pub handler : StratumHandler
  pub result : Outcome (Unit {0})

unfoldable pub set_extranonce : Text → ℕ → StratumHandler → Settled
set_extranonce extranonce nonce_size h = elim (from_str_radix extranonce) [
  | none ↦ record {
    handler = record h { extranonce = some extranonce };
    result = err ErrorKind.general;
  }
  | some fixed ↦ record {
    handler = record h {
      extranonce = some extranonce;
      nonce_fixed = fixed * 2 ^ shift_of nonce_size % 2 ^ 64;
      nonce_mask = 2 ^ shift_of nonce_size - 1;
    };
    result = ok tt;
  }
]

-- `leading_zeros` of a number of `k` bits.
unfoldable pub leading_zeros : ℕ → ℕ → ℕ
leading_zeros zero n = 0
leading_zeros (suc k) n = let rest = leading_zeros k n in if leb (2 ^ k) n then 0 else suc rest

-- `as u64`.
abbrev pub to_u64 : ℤ → ℕ
to_u64 (pos n) = n
to_u64 (negsuc n) = 2 ^ 64 - (n + 1)

-- The words of a mantissa `remainder` bits into the word `start`.
unfoldable pub placed : ℕ → ℕ → ℕ → Outcome Uint256
placed new_mantissa start remainder =
    let buf = set default start (new_mantissa * 2 ^ remainder % 2 ^ 64) in
    if leb 4 start
    then panic
    else if ltb start 3
    then ok (set buf (start + 1) (new_mantissa / 2 ^ ((64 - remainder) % 64)))
    else if ltb (leading_zeros 64 new_mantissa) remainder
    then err ErrorKind.general
    else ok buf

-- The mantissa and the exponent of a target: `DIFFICULTY_1_TARGET` by the difficulty. The decoding
-- of the reciprocal is that of the package num.
abbrev pub scaled : ℕ × ℤ → ℕ × ℕ
scaled decoded = (decoded.0 * 0xffff % 2 ^ 64, to_u64 (pos 208 +ℤ decoded.1))

abbrev pub settle_target : StratumHandler → Outcome Uint256 → Settled
settle_target h (ok target) = record { handler = record h { target_pool = target }; result = ok tt }
settle_target h (err kind) = record { handler = h; result = err kind }
settle_target h panic = record { handler = h; result = panic }

unfoldable pub set_difficulty : {F : Type 0} → (F → ℕ × ℤ) → F → StratumHandler → Settled
set_difficulty recip_decode difficulty h =
    let (mantissa, exponent) = scaled (recip_decode difficulty) in
    settle_target h (placed mantissa (exponent / 64) (exponent % 64))
