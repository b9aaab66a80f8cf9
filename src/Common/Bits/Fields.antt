-- ===== src/Common/Bits/Fields.antt =====
-- `&` with a low mask and `|` of fields that do not overlap, as arithmetic, at every width.
use Prim.Native.Nat.{ℕ, zero, suc, ◌+◌, ◌-◌, ◌*◌, ◌/◌, ◌%◌, ◌^◌, ◌≤◌, ◌<◌, bit_and, bit_or}
use Prim.Native.Nat.{bit_or-bitwise}
use mathlib.Core.Path.{◌≡◌, refl, ap}
use native.Mathlib.Nat.{pow-suc, one-le-pow}
use native.Mathlib.Omega.{arith}
use kasop.Common.Bits.Step.{bit_or_step, bit_and_step}

-- Zero on the right, for values up to a bound.
or_zero_upto : (n a : ℕ) → a ≤ n → bit_or a 0 ≡ a
or_zero_upto n zero h = refl
or_zero_upto zero (suc a) h = absurd (omega arith)
or_zero_upto (suc n) (suc a) h =
    omega (arith, bit_or_step (suc a) 0, or_zero_upto n (suc a / 2) (omega arith))

pub bit_or-zero : (a : ℕ) → bit_or a 0 ≡ a
bit_or-zero a = or_zero_upto a a (omega arith)

and_zero_upto : (n a : ℕ) → a ≤ n → bit_and a 0 ≡ 0
and_zero_upto n zero h = refl
and_zero_upto zero (suc a) h = absurd (omega arith)
and_zero_upto (suc n) (suc a) h =
    omega (arith, bit_and_step (suc a) 0, and_zero_upto n (suc a / 2) (omega arith))

pub bit_and-zero : (a : ℕ) → bit_and a 0 ≡ 0
bit_and-zero a = and_zero_upto a a (omega arith)

-- `2 ^ (k + 1)` times a number, halved.
pow_double : (k : ℕ) → 2 ^ suc k ≡ 2 * 2 ^ k
pow_double k = omega (arith, pow-suc 2 k)

scaled_double : (k q : ℕ) → q * 2 ^ suc k ≡ 2 * (q * 2 ^ k)
scaled_double k q = omega (arith, ap (λ (t : ℕ). q * t) (pow_double k))

-- A shifted value and a value that fits below it: `|` is `+`, in both orders of the operands.
pub or_as_sum : (k high low : ℕ) → low < 2 ^ k → bit_or (high * 2 ^ k) low ≡ high * 2 ^ k + low
or_as_sum zero high low fits = ground (arith, bit_or-zero high)
or_as_sum (suc k) high low fits = ground (
  arith,
  pow_double k,
  scaled_double k high,
  bit_or_step (high * 2 ^ suc k) low,
  or_as_sum k high (low / 2) (omega (arith, pow_double k)),
)

and_of_sum : (k high low : ℕ) → low < 2 ^ k → bit_and (high * 2 ^ k + low) (2 ^ k - 1) ≡ low
and_of_sum zero high low fits = omega (arith, bit_and-zero (high * 2 ^ 0 + low))
and_of_sum (suc k) high low fits = ground (
  arith,
  pow_double k,
  scaled_double k high,
  one-le-pow k 2,
  bit_and_step (high * 2 ^ suc k + low) (2 ^ suc k - 1),
  and_of_sum k high (low / 2) (omega (arith, pow_double k)),
)

-- A mask of the `k` lowest bits is the remainder by `2 ^ k`.
pub mask_as_mod : (k a : ℕ) → bit_and a (2 ^ k - 1) ≡ a % 2 ^ k
mask_as_mod k a = ground (arith, one-le-pow k 2, and_of_sum k (a / 2 ^ k) (a % 2 ^ k))

-- `|` of numbers below `2 ^ k` stays below.
pub bit_or-lt : (k a b : ℕ) → a < 2 ^ k → b < 2 ^ k → bit_or a b < 2 ^ k
bit_or-lt zero a b p q = ground (arith, bit_or_step a b, bit_or-zero 0)
bit_or-lt (suc k) a b p q =
    let half =
      bit_or-lt k (a / 2) (b / 2) (omega (arith, pow_double k)) (omega (arith, pow_double k)) in
    omega (arith, pow_double k, bit_or_step a b)

-- A mask of higher bits sees nothing of what is below.
pub mask_above :
    (k high low mask : ℕ)
    → low < 2 ^ k
    → bit_and (high * 2 ^ k + low) (mask * 2 ^ k) ≡ bit_and high mask * 2 ^ k
mask_above zero high low mask fits =
    let e : high * 2 ^ 0 + low ≡ high = omega arith in
    let e' : mask * 2 ^ 0 ≡ mask = omega arith in rw (e, e') (omega arith)
mask_above (suc k) high low mask fits = ground (
  arith,
  pow_double k,
  scaled_double k high,
  scaled_double k mask,
  scaled_double k (bit_and high mask),
  bit_and_step (high * 2 ^ suc k + low) (mask * 2 ^ suc k),
  mask_above k high (low / 2) mask (omega (arith, pow_double k)),
)

zero_or : (b : ℕ) → bit_or 0 b ≡ b
zero_or b = simp bit_or-bitwise refl

-- The order of the operands of `|`, for values up to a bound.
or_comm_upto : (n a b : ℕ) → a ≤ n → bit_or a b ≡ bit_or b a
or_comm_upto n zero b h = omega (arith, bit_or-zero b, zero_or b)
or_comm_upto zero (suc a) b h = absurd (omega arith)
or_comm_upto (suc n) (suc a) b h = omega (
  arith,
  bit_or_step (suc a) b,
  bit_or_step b (suc a),
  or_comm_upto n (suc a / 2) (b / 2) (omega arith),
)

pub bit_or_comm : (a b : ℕ) → bit_or a b ≡ bit_or b a
bit_or_comm a b = or_comm_upto a a b (omega arith)
