-- ===== src/Common/Powers.antt =====
-- Powers of two: sums of exponents, and a 64-bit word cut at a place.
use Prim.Native.Nat.{ℕ, zero, suc, ◌+◌, ◌-◌, ◌*◌, ◌/◌, ◌%◌, ◌^◌, ◌≤◌, ◌<◌}
use mathlib.Core.Path.{◌≡◌, ap}
use native.Mathlib.Nat.{
  pow-suc, one-le-pow, mod-lt, mod-add-div, mul-le-mul_right, div-lt_iff_lt-mul,
}
use native.Mathlib.Omega.{arith}

pub pow_double : (k : ℕ) → 2 ^ suc k ≡ 2 * 2 ^ k
pow_double k = omega (arith, pow-suc 2 k)

pub pow_pos : (k : ℕ) → 0 < 2 ^ k
pow_pos k = one-le-pow k 2 (omega arith)

pub pow-add : (a b : ℕ) → 2 ^ (a + b) ≡ 2 ^ a * 2 ^ b
pow-add zero b = let e : 0 + b ≡ b = omega arith in rw e (omega arith)
pow-add (suc a) b =
    let e : suc a + b ≡ suc (a + b) = omega arith in
    rw e (
      omega (
        arith,
        pow_double (a + b),
        pow_double a,
        pow-add a b,
        ap (λ (t : ℕ). t * 2 ^ b) (pow_double a),
      ))

-- A word is cut in two, of `64 - k` and of `k` bits.
pow_word : (k : ℕ) → k ≤ 64 → 2 ^ 64 ≡ 2 ^ k * 2 ^ (64 - k)
pow_word k h = let e : k + (64 - k) ≡ 64 = omega arith in rw e at (pow-add k (64 - k))

low_part : (x k : ℕ) → k ≤ 64 → x % 2 ^ (64 - k) * 2 ^ k + 2 ^ k ≤ 2 ^ 64
low_part x k h = omega (arith, pow_word k h, mul-le-mul_right (2 ^ k) (mod-lt x (pow_pos (64 - k))))

shifted : (x k : ℕ) → k ≤ 64 → x * 2 ^ k ≡ x % 2 ^ (64 - k) * 2 ^ k + 2 ^ 64 * (x / 2 ^ (64 - k))
shifted x k h = omega (
  arith,
  ap (λ (t : ℕ). t * 2 ^ k) (mod-add-div x (2 ^ (64 - k))),
  ap (λ (t : ℕ). t * (x / 2 ^ (64 - k))) (pow_word k h),
)

-- `x << k` and the bits that fall out of the word: together they are the product.
pub shl_split : (x k : ℕ) → k ≤ 64 → x * 2 ^ k % 2 ^ 64 + 2 ^ 64 * (x / 2 ^ (64 - k)) ≡ x * 2 ^ k
shl_split x k h = omega (arith, shifted x k h, low_part x k h, pow_pos k)

-- The `k` lowest bits of `x << k` are free, and the bits that fall out fit there.
pub shl_room : (x k : ℕ) → k ≤ 64 → x * 2 ^ k % 2 ^ 64 + 2 ^ k ≤ 2 ^ 64
shl_room x k h = omega (arith, shifted x k h, low_part x k h, pow_pos k)

pub carry-lt : (x k : ℕ) → k ≤ 64 → x < 2 ^ 64 → x / 2 ^ (64 - k) < 2 ^ k
carry-lt x k h hx = (div-lt_iff_lt-mul (pow_pos (64 - k))).1 (omega (arith, pow_word k h))
