-- ===== src/Stratum/Settings/Difficulty.antt =====
-- src/client/stratum.rs: the target of a difficulty, as a number.
use kasop.Common.{
  ℕ, zero, suc, ◌+◌, ◌-◌, ◌*◌, ◌/◌, ◌%◌, ◌^◌, ◌≤◌, ◌<◌, Bool-cases, ltb, leb, ltb→lt, dec_lt,
  Outcome, ok, err, ErrorKind, ◌≡◌, ◌⊎◌, inl, inr, refl, ap, ◌∙◌, arith,
}
use native.Mathlib.Nat.{div-le_self, mul-le-mul_right, mod-lt, mod-eq_of_lt, div-add-mod}
use kasop.Common.Int.{ℤ, pos, ◌+ℤ◌}
use kasop.Common.Powers.{pow_double, pow_pos, pow-add, shl_split}
use kasop.Target.{Uint256, IsUint256, value}
use kasop.Stratum.{StratumHandler}
use kasop.Stratum.Settings.{leading_zeros, placed, settle_target, set_difficulty}

-- A shift by at most the leading zeros loses nothing.
leading_zeros-fits : (k n r : ℕ) → n < 2 ^ k → r ≤ leading_zeros k n → n * 2 ^ r < 2 ^ k
unfolding leading_zeros
leading_zeros-fits zero n r h p = let e : n ≡ 0 = omega (arith, h) in rw e (omega arith)
leading_zeros-fits (suc k) n zero h p = omega arith
leading_zeros-fits (suc k) n (suc r) h p = elim (Bool-cases (leb (2 ^ k) n)) [
  | inl e ↦ let bad : suc r ≤ 0 = rw e at p in absurd (omega (arith, bad))
  | inr e ↦
      let less : suc r ≤ suc (leading_zeros k n) = rw e at p in
      let low : n < 2 ^ k = ground arith in
      let rest = leading_zeros-fits k n r low (omega (arith, less)) in
      omega (arith, rest, pow_double k, ap (λ (t : ℕ). n * t) (pow_double r))
]

-- A shift by more loses a bit.
leading_zeros-lost : (k n r : ℕ) → n < 2 ^ k → r ≤ k → leading_zeros k n < r → 2 ^ k ≤ n * 2 ^ r
unfolding leading_zeros
leading_zeros-lost zero n r h q p = absurd (omega arith)
leading_zeros-lost (suc k) n zero h q p = absurd (omega arith)
leading_zeros-lost (suc k) n (suc r) h q p = elim (Bool-cases (leb (2 ^ k) n)) [
  | inl e ↦
      let big : 2 ^ k ≤ n = ground arith in
      let scale = mul-le-mul_right (2 ^ suc r) big in
      omega (
        arith,
        scale,
        pow_double r,
        pow_double k,
        ap (λ (t : ℕ). 2 ^ k * t) (pow_double r),
        mul-le-mul_right (2 ^ k) (pow_pos r),
      )
  | inr e ↦
      let less : suc (leading_zeros k n) < suc r = rw e at p in
      let low : n < 2 ^ k = ground arith in
      let rest = leading_zeros-lost k n r low (omega arith) (omega (arith, less)) in
      omega (arith, rest, pow_double k, ap (λ (t : ℕ). n * t) (pow_double r))
]

-- The words are those of a number, or the number does not fit.
Fits : ℕ → Outcome Uint256 → Type 0
Fits number words =
    ((number < 2 ^ 256)
      × (target : Uint256) × (words ≡ ok target)
      × IsUint256 target
      × (value target ≡ number))
    ⊎ ((2 ^ 256 ≤ number) × (words ≡ err ErrorKind.general))

module _ (n r : ℕ) (small : n < 2 ^ 40) (inside : r < 64) where
  shift_left : 0 < r → (64 - r) % 64 ≡ 64 - r
  shift_left h = mod-eq_of_lt (omega arith)

  -- Below the last word there is room for the high part.
  placed-low :
      (start : ℕ) → start < 3 → 0 < r → Fits (n * 2 ^ r * 2 ^ (64 * start)) (placed n start r)
  unfolding placed Fits
  placed-low zero h above =
      let hi = div-le_self n (2 ^ (64 - r)) in
      let split = shl_split n r (omega arith) in
      let lo = mod-lt (n * 2 ^ r) (pow_pos 64) in
      rw (shift_left above) (
        inl
          (omega arith, _, refl, (omega arith, omega arith, omega arith, omega arith), omega arith))
  placed-low (suc zero) h above =
      let hi = div-le_self n (2 ^ (64 - r)) in
      let split = shl_split n r (omega arith) in
      let lo = mod-lt (n * 2 ^ r) (pow_pos 64) in
      rw (shift_left above) (
        inl
          (omega arith, _, refl, (omega arith, omega arith, omega arith, omega arith), omega arith))
  placed-low (suc (suc zero)) h above =
      let hi = div-le_self n (2 ^ (64 - r)) in
      let split = shl_split n r (omega arith) in
      let lo = mod-lt (n * 2 ^ r) (pow_pos 64) in
      rw (shift_left above) (
        inl
          (omega arith, _, refl, (omega arith, omega arith, omega arith, omega arith), omega arith))
  placed-low (suc (suc (suc start))) h above = absurd (omega (arith, h))

  placed-top : Fits (n * 2 ^ r * 2 ^ 192) (placed n 3 r)
  unfolding placed Fits
  placed-top = elim (Bool-cases (ltb (leading_zeros 64 n) r)) [
    | inl e ↦
        let lost = leading_zeros-lost 64 n r (omega arith) (omega arith) (ltb→lt _ _ e) in
        rw e (inr (omega (arith, lost), refl))
    | inr e ↦
        let kept = leading_zeros-fits 64 n r (omega arith) (ground arith) in
        let whole = mod-eq_of_lt kept in
        rw e (
          inl (
            omega arith,
            _,
            refl,
            (omega arith, omega arith, omega arith, omega arith),
            omega arith,
          ))
  ]

-- The shift by a whole exponent.
scaled_up : (n e : ℕ) → n * 2 ^ e ≡ n * 2 ^ (e % 64) * 2 ^ (64 * (e / 64))
scaled_up n e =
    let split : e ≡ e % 64 + 64 * (e / 64) = omega (arith, div-add-mod e 64) in
    ap (λ (t : ℕ). n * 2 ^ t) split
    ∙ ap (λ (t : ℕ). n * t) (pow-add (e % 64) (64 * (e / 64)))
    ∙ omega arith

placed-Fits :
    (n e : ℕ)
    → n < 2 ^ 40
    → e < 256
    → (0 < e % 64) ⊎ (192 ≤ e)
    → Fits (n * 2 ^ e) (placed n (e / 64) (e % 64))
placed-Fits n e small low (inl above) = rw (scaled_up n e) (elim (dec_lt (e / 64) 3) [
  | yes h ↦ placed-low n (e % 64) small (mod-lt e (omega arith)) (e / 64) h above
  | no h ↦
      let top : e / 64 ≡ 3 = omega arith in
      rw top (placed-top n (e % 64) small (mod-lt e (omega arith)))
])
placed-Fits n e small low (inr high) =
    let top : e / 64 ≡ 3 = omega arith in
    rw (scaled_up n e) (rw top (placed-top n (e % 64) small (mod-lt e (omega arith))))

-- A difficulty whose reciprocal is a mantissa below `2 ^ 24` at an exponent: with the 208 bits of
-- the target of difficulty 1, the exponent is below 256, and not a whole number of words unless
-- it is the last one. If the mantissa times 0xffff at this exponent is below `2 ^ 256`, this
-- number is the new target; otherwise the result is an error and the handler is as it was.
pub set_difficulty_lem :
    {F : Type 0} (recip_decode : F → ℕ × ℤ) (difficulty : F) (h : StratumHandler) (mantissa e : ℕ)
    (exponent : ℤ)
    → recip_decode difficulty ≡ (mantissa, exponent)
    → pos 208 +ℤ exponent ≡ pos e
    → mantissa < 2 ^ 24
    → e < 256
    → (0 < e % 64) ⊎ (192 ≤ e)
    → ((mantissa * 0xffff * 2 ^ e < 2 ^ 256)
        × (target : Uint256) × (set_difficulty recip_decode difficulty h
            ≡ record { handler = record h { target_pool = target }; result = ok tt })
        × IsUint256 target
        × (value target ≡ mantissa * 0xffff * 2 ^ e))
      ⊎ ((2 ^ 256 ≤ mantissa * 0xffff * 2 ^ e)
          × (set_difficulty recip_decode difficulty h
              ≡ record { handler = h; result = err ErrorKind.general }))
unfolding set_difficulty Fits
set_difficulty_lem recip_decode difficulty h mantissa e exponent decoded place small low apart =
    let whole : mantissa * 0xffff % 2 ^ 64 ≡ mantissa * 0xffff = mod-eq_of_lt (omega arith) in
    let all : set_difficulty recip_decode difficulty h
        ≡ settle_target h (placed (mantissa * 0xffff) (e / 64) (e % 64)) =
      rw (decoded, whole, place) refl in
    elim (placed-Fits (mantissa * 0xffff) e (omega arith) low apart) [
      | inl (fits, target, made, words, number) ↦
          inl (fits, target, all ∙ ap (settle_target h) made, words, number)
      | inr (big, made) ↦ inr (big, all ∙ ap (settle_target h) made)
    ]
