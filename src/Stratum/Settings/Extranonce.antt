-- ===== src/Stratum/Settings/Extranonce.antt =====
-- src/client/stratum.rs: the part of the nonces that a pool fixes, as a number.
use kasop.Common.{
  ℕ, ◌+◌, ◌-◌, ◌*◌, ◌^◌, ◌≤◌, ◌<◌, false, List, [], ◌∷◌, map, All, some, ltb, ◌==◌, ok, ◌≡◌, refl,
  arith, if◌then◌else◌, lt→ltb,
}
use native.Mathlib.Nat.{mod-eq_of_lt, mul-le-mul_right}
use kasop.Common.Powers.{pow_pos}
use kasop.Stratum.{StratumHandler}
use kasop.Stratum.Settings.{to_digit, read_digits, from_str_radix, shift_of, set_extranonce}

-- The character of a digit below 16.
abbrev pub hex_char : ℕ → ℕ
hex_char d = if ltb d 10 then 48 + d else 87 + d

-- The number of hexadecimal digits, the first one first, after a number.
abbrev pub number_from : ℕ → List ℕ → ℕ
number_from read [] = read
number_from read (d ∷ ds) = number_from (read * 16 + d) ds

to_digit-hex_char : (d : ℕ) → d < 16 → to_digit (hex_char d) ≡ some d
unfolding to_digit
to_digit-hex_char d h = ground arith

number_from-ge : (read : ℕ) (ds : List ℕ) → read ≤ number_from read ds
number_from-ge read [] = omega arith
number_from-ge read (d ∷ ds) = omega (arith, number_from-ge (read * 16 + d) ds)

read_digits-number :
    (read : ℕ) (ds : List ℕ)
    → All (λ d. d < 16) ds
    → number_from read ds < 2 ^ 64
    → read_digits read (map hex_char ds) ≡ some (number_from read ds)
unfolding read_digits
read_digits-number read [] small fits = refl
read_digits-number read (d ∷ ds) (hd, small) fits =
    let room : read * 16 + d < 2 ^ 64 = omega (arith, number_from-ge (read * 16 + d) ds) in
    rw (read_digits, to_digit-hex_char d hd, lt→ltb _ _ room)
      (read_digits-number (read * 16 + d) ds small fits)

no_plus : (d : ℕ) → d < 16 → (hex_char d == 43) ≡ false
no_plus d h = ground arith

from_str_radix-number :
    (d : ℕ) (ds : List ℕ)
    → All (λ x. x < 16) (d ∷ ds)
    → number_from 0 (d ∷ ds) < 2 ^ 64
    → from_str_radix (map hex_char (d ∷ ds)) ≡ some (number_from 0 (d ∷ ds))
unfolding from_str_radix
from_str_radix-number d [] small fits = read_digits-number 0 (d ∷ []) small fits
from_str_radix-number d (e ∷ ds) small fits =
    rw (no_plus d small.0) (read_digits-number 0 (d ∷ e ∷ ds) small fits)

shift_of-small : (size : ℕ) → size ≤ 7 → shift_of size ≡ size * 8
shift_of-small size h = omega arith

below : (number scale : ℕ) → 1 * number ≤ scale * number → number * scale < 2 ^ 64 → number < 2 ^ 64
below number scale big fits = omega (arith, big, fits)

-- The extranonce of a pool is a text of hexadecimal digits, and it leaves at most 7 bytes of the
-- nonce to the miner: its number, shifted by these bytes, fits into 64 bits. Then this shifted
-- number is the fixed part, and the mask has exactly the bits below it.
pub set_extranonce_lem :
    (d : ℕ) (ds : List ℕ) (size : ℕ) (h : StratumHandler)
    → All (λ x. x < 16) (d ∷ ds)
    → size ≤ 7
    → number_from 0 (d ∷ ds) * 2 ^ (size * 8) < 2 ^ 64
    → set_extranonce (map hex_char (d ∷ ds)) size h ≡ record {
      handler = record h {
        extranonce = some (map hex_char (d ∷ ds));
        nonce_fixed = number_from 0 (d ∷ ds) * 2 ^ (size * 8);
        nonce_mask = 2 ^ (size * 8) - 1;
      };
      result = ok tt;
    }
unfolding set_extranonce
set_extranonce_lem d ds size h small few fits =
    let number = number_from 0 (d ∷ ds) in
    let scale = 2 ^ (size * 8) in
    let big = mul-le-mul_right (number_from 0 (d ∷ ds)) (pow_pos (size * 8)) in
    let low : number_from 0 (d ∷ ds) < 2 ^ 64 = below number scale big fits in
    rw (set_extranonce, from_str_radix-number d ds small low, shift_of-small size few)
      (rw (mod-eq_of_lt fits) refl)
