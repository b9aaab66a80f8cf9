-- ===== src/Target/Compact.antt =====
-- The target that a compact encoding stands for.
use kasop.Common.{ℕ, zero, suc, ◌-◌, ◌*◌, ◌/◌, ◌%◌, ◌^◌, ◌<◌, ◌≡◌, ap, ◌∙◌, arith}
use kasop.Common.{ltb, leb, if◌then◌else◌, Bool-cases, inl, inr}
use kasop.Common.Bits.Fields.{mask_as_mod}
use kasop.Target.{value, default, from_u64, shl, u256_from_compact_target}
use kasop.Target.Shift.{shl-value}

-- The encoding read as a number: a mantissa of 24 bits, and an exponent that counts bytes from the
-- third.
unfoldable pub mantissa : ℕ → ℕ
mantissa bits = bits % 2 ^ 24

unfoldable pub exponent : ℕ → ℕ
exponent bits = bits / 2 ^ 24

-- What the mantissa is compared with the sign bit as: a small exponent shifts it to the right
-- first.
pub magnitude : ℕ → ℕ
unfolding mantissa exponent
magnitude bits =
    if leb (exponent bits) 3 then mantissa bits / 2 ^ (8 * (3 - exponent bits)) else mantissa bits

-- The last step of the function, for any mantissa and exponent.
finish_value :
    (mant expt : ℕ)
    → value (if ltb 0x7fffff mant then default else shl (from_u64 mant) expt)
      ≡ (if ltb 0x7fffff mant then 0 else mant * 2 ^ expt % 2 ^ 256)
unfolding from_u64
finish_value mant expt = elim (Bool-cases (ltb 0x7fffff mant)) [
  | inl e ↦ rw e
  | inr e ↦
      let small : mant < 2 ^ 64 = ground arith in
      let plain : value (from_u64 mant) ≡ mant = omega arith in
      rw e (
        shl-value (from_u64 mant) expt (omega arith) ∙ ap (λ (t : ℕ). t * 2 ^ expt % 2 ^ 256) plain)
]

-- For every `bits`: zero if the magnitude is above 0x7fffff, and otherwise the magnitude, times
-- 256 for each step of the exponent above 3, modulo 2 ^ 256.
pub u256_from_compact_target-value :
    (bits : ℕ)
    → value (u256_from_compact_target bits) ≡ (
        if ltb 0x7fffff (magnitude bits)
        then 0
        else magnitude bits * 2 ^ (8 * (exponent bits - 3)) % 2 ^ 256)
unfolding u256_from_compact_target magnitude
u256_from_compact_target-value bits = elim (Bool-cases (leb (bits / 2 ^ 24) 3)) [
  | inl e ↦
      let none_left : 8 * (bits / 2 ^ 24 - 3) ≡ 0 = ground arith in
      rw (e, mask_as_mod 24 bits, none_left)
        (finish_value (bits % 2 ^ 24 / 2 ^ (8 * (3 - bits / 2 ^ 24))) 0)
  | inr e ↦ rw (e, mask_as_mod 24 bits) (finish_value (bits % 2 ^ 24) (8 * (bits / 2 ^ 24 - 3)))
]

small_magnitude :
    (m e : ℕ)
    → m < 2 ^ 24
    → e < 3
    → (let g = if leb e 3 then m / 2 ^ (8 * (3 - e)) else m in
        if ltb 0x7fffff g then 0 else g * 2 ^ (8 * (e - 3)) % 2 ^ 256)
      ≡ m / 2 ^ (8 * (3 - e))
small_magnitude m zero hm he = ground arith
small_magnitude m (suc zero) hm he = ground arith
small_magnitude m (suc (suc zero)) hm he = ground arith
small_magnitude m (suc (suc (suc e))) hm he = absurd (omega arith)

-- The sign bit is looked for behind the shift: below an exponent of 3 it has moved down, and is
-- read as a digit of the target.
pub small_exponent-value :
    (bits : ℕ)
    → exponent bits < 3
    → value (u256_from_compact_target bits) ≡ mantissa bits / 2 ^ (8 * (3 - exponent bits))
unfolding magnitude
small_exponent-value bits h =
    u256_from_compact_target-value bits ∙ small_magnitude (mantissa bits) (exponent bits) small h
  where
    small : mantissa bits < 2 ^ 24
    small = unfold mantissa in omega arith
