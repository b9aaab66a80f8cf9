-- ===== src/Common/Bits/Xor.antt =====
-- `^` at every width: a commutative group of order two, compatible with shifts and remainders.
use Prim.Native.Nat.{ℕ, zero, suc, ◌+◌, ◌*◌, ◌/◌, ◌%◌, ◌^◌, ◌≤◌, ◌<◌, bit_xor}
use mathlib.Core.Path.{◌≡◌, refl, sym, ap, ap₂, ◌∙◌}
use native.Mathlib.Nat.{pow-suc, div-div-eq-div-mul, div-add-mod'}
use native.Mathlib.Omega.{arith}
use kasop.Common.Bits.Step.{bit_xor_step}

self_upto : (n a : ℕ) → a ≤ n → bit_xor a a ≡ 0
self_upto n zero h = refl
self_upto zero (suc a) h = absurd (omega arith)
self_upto (suc n) (suc a) h =
    omega (arith, bit_xor_step (suc a) (suc a), self_upto n (suc a / 2) (omega arith))

pub xor_self : (a : ℕ) → bit_xor a a ≡ 0
xor_self a = self_upto a a (omega arith)

zero_upto : (n a : ℕ) → a ≤ n → bit_xor a 0 ≡ a
zero_upto n zero h = refl
zero_upto zero (suc a) h = absurd (omega arith)
zero_upto (suc n) (suc a) h =
    omega (arith, bit_xor_step (suc a) 0, zero_upto n (suc a / 2) (omega arith))

pub xor_zero : (a : ℕ) → bit_xor a 0 ≡ a
xor_zero a = zero_upto a a (omega arith)

comm_upto : (n a b : ℕ) → a ≤ n → b ≤ n → bit_xor a b ≡ bit_xor b a
comm_upto zero a b p q = let ea : a ≡ 0 = omega arith in let eb : b ≡ 0 = omega arith in cc
comm_upto (suc n) a b p q = omega (
  arith,
  bit_xor_step a b,
  bit_xor_step b a,
  comm_upto n (a / 2) (b / 2) (omega arith) (omega arith),
)

pub xor_comm : (a b : ℕ) → bit_xor a b ≡ bit_xor b a
xor_comm a b = comm_upto (a + b) a b (omega arith) (omega arith)

assoc_upto :
    (n a b c : ℕ) → a ≤ n → b ≤ n → c ≤ n → bit_xor (bit_xor a b) c ≡ bit_xor a (bit_xor b c)
assoc_upto zero a b c p q r =
    let ea : a ≡ 0 = omega arith in
    let eb : b ≡ 0 = omega arith in
    let ec : c ≡ 0 = omega arith in let e : bit_xor 0 0 ≡ 0 = refl in cc
assoc_upto (suc n) a b c p q r =
    let halves = assoc_upto n (a / 2) (b / 2) (c / 2) (omega arith) (omega arith) (omega arith) in
    let left : bit_xor a b / 2 ≡ bit_xor (a / 2) (b / 2) = omega (arith, bit_xor_step a b) in
    let right : bit_xor b c / 2 ≡ bit_xor (b / 2) (c / 2) = omega (arith, bit_xor_step b c) in
    let outer_left = ap (λ (t : ℕ). bit_xor t (c / 2)) left in
    let outer_right = ap (bit_xor (a / 2)) right in
    omega (
      arith,
      bit_xor_step a b,
      bit_xor_step b c,
      bit_xor_step (bit_xor a b) c,
      bit_xor_step a (bit_xor b c),
    )

pub xor_assoc : (a b c : ℕ) → bit_xor (bit_xor a b) c ≡ bit_xor a (bit_xor b c)
xor_assoc a b c = assoc_upto (a + b + c) a b c (omega arith) (omega arith) (omega arith)

pow_double : (k : ℕ) → 2 ^ suc k ≡ 2 * 2 ^ k
pow_double k = omega (arith, pow-suc 2 k)

pub xor-lt : (k a b : ℕ) → a < 2 ^ k → b < 2 ^ k → bit_xor a b < 2 ^ k
xor-lt zero a b p q =
    let ea : a ≡ 0 = omega arith in
    let eb : b ≡ 0 = omega arith in let e : bit_xor a b ≡ 0 = cc (xor_self 0) in omega arith
xor-lt (suc k) a b p q =
    let half =
      xor-lt k (a / 2) (b / 2) (omega (arith, pow_double k)) (omega (arith, pow_double k)) in
    omega (arith, pow_double k, bit_xor_step a b)

-- Shifts to the left and to the right.
scaled_double : (k t : ℕ) → t * 2 ^ suc k ≡ 2 * (t * 2 ^ k)
scaled_double k t = omega (arith, ap (λ (u : ℕ). t * u) (pow_double k))

pub xor-mul : (k a b : ℕ) → bit_xor (a * 2 ^ k) (b * 2 ^ k) ≡ bit_xor a b * 2 ^ k
xor-mul zero a b =
    let e : (t : ℕ) → t * 2 ^ 0 ≡ t = λ t. omega arith in rw (e a, e b, e (bit_xor a b))
xor-mul (suc k) a b =
    let halve : (t : ℕ) → t * 2 ^ suc k / 2 ≡ t * 2 ^ k = λ t. omega (arith, scaled_double k t) in
    omega (
      arith,
      bit_xor_step (a * 2 ^ suc k) (b * 2 ^ suc k),
      ap₂ bit_xor (halve a) (halve b),
      xor-mul k a b,
      scaled_double k a,
      scaled_double k b,
      scaled_double k (bit_xor a b),
    )

pub div-pow_suc : (k t : ℕ) → t / 2 ^ suc k ≡ t / 2 / 2 ^ k
div-pow_suc k t = rw (pow_double k) (sym (div-div-eq-div-mul t 2 (2 ^ k)))

pub mod-pow_suc : (k t : ℕ) → t % 2 ^ suc k ≡ t / 2 % 2 ^ k * 2 + t % 2
mod-pow_suc k t = omega (
  arith,
  div-add-mod' t (2 ^ suc k),
  div-add-mod' (t / 2) (2 ^ k),
  scaled_double k (t / 2 ^ suc k),
  ap (λ (u : ℕ). u * 2 ^ k) (div-pow_suc k t),
)

pub xor-div : (k a b : ℕ) → bit_xor (a / 2 ^ k) (b / 2 ^ k) ≡ bit_xor a b / 2 ^ k
xor-div zero a b =
    let e : (t : ℕ) → t / 2 ^ 0 ≡ t = λ t. omega arith in rw (e a, e b, e (bit_xor a b))
xor-div (suc k) a b =
    let halve : bit_xor a b / 2 ≡ bit_xor (a / 2) (b / 2) = omega (arith, bit_xor_step a b) in
    rw (div-pow_suc k a, div-pow_suc k b, div-pow_suc k (bit_xor a b), halve)
      (xor-div k (a / 2) (b / 2))

pub xor-mod : (k a b : ℕ) → bit_xor (a % 2 ^ k) (b % 2 ^ k) ≡ bit_xor a b % 2 ^ k
xor-mod zero a b =
    let e : (t : ℕ) → t % 2 ^ 0 ≡ 0 = λ t. omega arith in rw (e a, e b, e (bit_xor a b))
xor-mod (suc k) a b =
    let halve : (t : ℕ) → t % 2 ^ suc k / 2 ≡ t / 2 % 2 ^ k = λ t. omega (arith, mod-pow_suc k t) in
    let inner : bit_xor a b / 2 ≡ bit_xor (a / 2) (b / 2) = omega (arith, bit_xor_step a b) in
    omega (
      arith,
      bit_xor_step (a % 2 ^ suc k) (b % 2 ^ suc k),
      bit_xor_step a b,
      ap₂ bit_xor (halve a) (halve b),
      xor-mod k (a / 2) (b / 2),
      ap (λ (t : ℕ). t % 2 ^ k) inner,
      mod-pow_suc k a,
      mod-pow_suc k b,
      mod-pow_suc k (bit_xor a b),
    )

-- `(a ^ b) ^ b` is `a`, and the sums of two pairs regroup.
pub xor_cancel : (a b : ℕ) → bit_xor (bit_xor a b) b ≡ a
xor_cancel a b = rw (xor_assoc, xor_self) (xor_zero a)

pub xor_interchange :
    (a b c d : ℕ) → bit_xor (bit_xor a b) (bit_xor c d) ≡ bit_xor (bit_xor a c) (bit_xor b d)
xor_interchange a b c d = cc (
  xor_assoc a b (bit_xor c d),
  xor_assoc a c (bit_xor b d),
  xor_assoc b c d,
  xor_assoc c b d,
  xor_comm b c,
)

-- `(a ^ b) ^ (b ^ c)` is `a ^ c`.
pub xor_middle : (a b c : ℕ) → bit_xor (bit_xor a b) (bit_xor b c) ≡ bit_xor a c
xor_middle a b c = cc (xor_assoc (bit_xor a b) b c, xor_cancel a b)

-- `^` of fields that do not overlap is their sum.
pub xor_as_sum : (k high low : ℕ) → low < 2 ^ k → bit_xor (high * 2 ^ k) low ≡ high * 2 ^ k + low
xor_as_sum zero high low fits =
    let e : low ≡ 0 = omega arith in rw e (xor_zero (high * 2 ^ 0) ∙ omega arith)
xor_as_sum (suc k) high low fits =
    let halve : high * 2 ^ suc k / 2 ≡ high * 2 ^ k = omega (arith, scaled_double k high) in
    let below = xor_as_sum k high (low / 2) (omega (arith, pow_double k)) in
    omega (
      arith,
      scaled_double k high,
      bit_xor_step (high * 2 ^ suc k) low,
      ap (λ (t : ℕ). bit_xor t (low / 2)) halve,
    )
