-- ===== src/HashchipI2c/Waiting.antt =====
-- The waits for the I2C controller of a chip.
use kasop.Common.{
  ℕ, zero, suc, ◌+◌, ◌<◌, ◌≤◌, ◌-◌, true, false, Outcome, ok, err, panic, ErrorKind, if◌then◌else◌,
  ◌==◌, ◌≡◌, ◌⊎◌, inl, inr, refl, ap, ◌∙◌, arith, Bool-cases,
}
use kasop.Bm1387.Address.{ChipAddress}
use kasop.Bm1387.Registers.{I2cControlReg, i2c_control_reg}
use kasop.Command.Interface.{CommandInterface, read_one_register}
use kasop.HashchipI2c.{is_busy, wait_tries, wait_busy, max_i2c_busy_wait_tries}

module _ {S : Type 0} (i : CommandInterface S) (chip_address : ChipAddress) where
  -- One read of the register of the controller, and the state behind so many reads.
  abbrev pub look : S → S × Outcome I2cControlReg
  look = read_one_register i i2c_control_reg chip_address

  abbrev pub behind : ℕ → S → S
  behind zero s = s
  behind (suc n) s = behind n (look s).0

module _ {S : Type 0} where
  -- A read that shows a busy controller.
  abbrev pub Busy : S × Outcome I2cControlReg → Type 0
  Busy (s, ok reg) = is_busy reg ≡ true
  Busy (s, err kind) = ⊥
  Busy (s, panic) = ⊥

  -- A read that ends the wait: an idle controller, or a failure.
  abbrev pub Over : S × Outcome I2cControlReg → Type 0
  Over (s, ok reg) = is_busy reg ≡ false
  Over (s, err kind) = Unit
  Over (s, panic) = Unit

module _ {S : Type 0} (i : CommandInterface S) (chip_address : ChipAddress) where
  again :
      (r : S × Outcome I2cControlReg) (n : ℕ) (s : S)
      → look i chip_address s ≡ r
      → Busy r
      → wait_tries i chip_address (suc n) s ≡ wait_tries i chip_address n (look i chip_address s).0
  unfolding wait_tries
  again (t, ok reg) n s e busy = rw (e, busy) refl
  again (t, err kind) n s e busy = absurd busy
  again (t, panic) n s e busy = absurd busy

  over :
      (r : S × Outcome I2cControlReg) (n : ℕ) (s : S)
      → look i chip_address s ≡ r
      → Over r
      → wait_tries i chip_address (suc n) s ≡ r
  unfolding wait_tries
  over (t, ok reg) n s e idle = rw (e, idle) refl
  over (t, err kind) n s e failed = rw e refl
  over (t, panic) n s e failed = rw e refl

  tries :
      (k n : ℕ) (s : S)
      → ((j : ℕ) → j < k → Busy (look i chip_address (behind i chip_address j s)))
      → wait_tries i chip_address (k + n) s
        ≡ wait_tries i chip_address n (behind i chip_address k s)
  tries zero n s early = let e : zero + n ≡ n = omega arith in rw e refl
  tries (suc k) n s early =
      let e : suc k + n ≡ suc (k + n) = omega arith in
      rw e (
        again (look i chip_address s) (k + n) s refl (early 0 (omega arith))
        ∙ tries k n (look i chip_address s).0 (λ j lt. early (suc j) (omega arith)))

  no_try : (s : S) → wait_tries i chip_address zero s ≡ (s, err ErrorKind.i2c_hashchip)
  unfolding wait_tries
  no_try s = refl

  -- How a wait ends whose read number `k`, counted from 0, is the first that is not busy.
  abbrev pub ended : ℕ → S → S × Outcome I2cControlReg
  ended k s =
      if k == max_i2c_busy_wait_tries
      then (behind i chip_address k s, err ErrorKind.i2c_hashchip)
      else look i chip_address (behind i chip_address k s)

  -- A wait for the controller ends as its first read that is not busy, if there is one among the
  -- fifty, with the state behind it; if all fifty are busy then it is an error behind just these.
  pub wait_busy-ended :
      (k : ℕ) (s : S)
      → k ≤ max_i2c_busy_wait_tries
      → ((j : ℕ) → j < k → Busy (look i chip_address (behind i chip_address j s)))
      → (k ≡ max_i2c_busy_wait_tries) ⊎ Over (look i chip_address (behind i chip_address k s))
      → wait_busy i chip_address s ≡ ended k s
  unfolding wait_busy
  wait_busy-ended k s le early last = elim (Bool-cases (k == 50)) [
    | inl all_busy ↦
        let e : 50 ≡ k + 0 = ground arith in
        rw (all_busy, e) (tries k 0 s early ∙ no_try (behind i chip_address k s))
    | inr some_idle ↦
        let e : 50 ≡ k + suc (49 - k) = ground arith in
        let idle : Over (look i chip_address (behind i chip_address k s)) = elim last [
          | inl same ↦ absurd (ground arith)
          | inr h ↦ h
        ] in
        rw some_idle (
          ap (λ n. wait_tries i chip_address n s) e
          ∙ tries k (suc (49 - k)) s early
          ∙ over (look i chip_address (behind i chip_address k s)) (49 - k)
              (behind i chip_address k s) refl idle)
  ]
