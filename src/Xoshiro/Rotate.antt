-- ===== src/Xoshiro/Rotate.antt =====
-- Shifts and rotations of 64-bit words: linear, and a rotation by 45 has an inverse.
use kasop.Common.{ℕ, ◌+◌, ◌*◌, ◌/◌, ◌%◌, ◌^◌, ◌<◌, bit_xor, ◌≡◌, refl, ap, ap₂, ◌∙◌, sym, arith}
use kasop.Common.Bits.Fields.{or_as_sum}
use kasop.Common.Bits.Xor.{xor-mul, xor-div, xor-mod, xor-lt, xor_as_sum, xor_interchange}
use kasop.Xoshiro.{shl, rotl}

pub shl-lt : (x k : ℕ) → shl x k < 2 ^ 64
unfolding shl
shl-lt x k = omega arith

pub shl-xor : (a b k : ℕ) → shl (bit_xor a b) k ≡ bit_xor (shl a k) (shl b k)
unfolding shl
shl-xor a b k =
    sym (xor-mod 64 (a * 2 ^ k) (b * 2 ^ k) ∙ ap (λ (t : ℕ). t % 2 ^ 64) (xor-mul k a b))

-- Four shifts by 17 push every bit out.
pub shl_four : (x : ℕ) → shl (shl (shl (shl x 17) 17) 17) 17 ≡ 0
unfolding shl
shl_four x = omega arith

-- A rotation by 45 exchanges the upper 45 bits and the lower 19.
pub rotl_parts : (x : ℕ) → x < 2 ^ 64 → rotl x 45 ≡ x % 2 ^ 19 * 2 ^ 45 + x / 2 ^ 19
unfolding rotl
rotl_parts x h =
    let e : x * 2 ^ 45 % 2 ^ 64 ≡ x % 2 ^ 19 * 2 ^ 45 = omega arith in
    rw e (or_as_sum 45 (x % 2 ^ 19) (x / 2 ^ 19) (omega arith))

pub rotl-lt : (x : ℕ) → x < 2 ^ 64 → rotl x 45 < 2 ^ 64
rotl-lt x h = omega (arith, rotl_parts x h)

pub rotr : ℕ → ℕ
rotr y = y / 2 ^ 45 + y % 2 ^ 45 * 2 ^ 19

pub rotr-rotl : (x : ℕ) → x < 2 ^ 64 → rotr (rotl x 45) ≡ x
unfolding rotr
rotr-rotl x h = omega (arith, rotl_parts x h)

-- The same with `^` for the sum, which makes the rotation linear.
rotl_as_xor : (x : ℕ) → x < 2 ^ 64 → rotl x 45 ≡ bit_xor (x % 2 ^ 19 * 2 ^ 45) (x / 2 ^ 19)
rotl_as_xor x h = rotl_parts x h ∙ sym (xor_as_sum 45 (x % 2 ^ 19) (x / 2 ^ 19) (omega arith))

pub rotl-xor :
    (a b : ℕ) → a < 2 ^ 64 → b < 2 ^ 64 → rotl (bit_xor a b) 45 ≡ bit_xor (rotl a 45) (rotl b 45)
rotl-xor a b ha hb =
    let upper : bit_xor a b % 2 ^ 19 * 2 ^ 45
        ≡ bit_xor (a % 2 ^ 19 * 2 ^ 45) (b % 2 ^ 19 * 2 ^ 45) =
      sym (xor-mul 45 (a % 2 ^ 19) (b % 2 ^ 19) ∙ ap (λ (t : ℕ). t * 2 ^ 45) (xor-mod 19 a b)) in
    rw (rotl_as_xor a ha, rotl_as_xor b hb, rotl_as_xor (bit_xor a b) (xor-lt 64 a b ha hb))
      (ap₂ bit_xor upper (sym (xor-div 19 a b))
        ∙ xor_interchange (a % 2 ^ 19 * 2 ^ 45) (b % 2 ^ 19 * 2 ^ 45) (a / 2 ^ 19) (b / 2 ^ 19))

pub rotr-zero : rotr 0 ≡ 0
unfolding rotr
rotr-zero = refl
