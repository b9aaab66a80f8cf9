-- ===== src/Power/Retry.antt =====
-- The retries of a write on the bus.
use kasop.Common.{
  ℕ, zero, suc, ◌+◌, ◌≤◌, ◌<◌, [], ◌∷◌, Outcome, ok, err, panic, ◌≡◌, ◌⊎◌, inl, inr, refl, arith,
  ◌∙◌, sym,
}
use kasop.Power.{AsyncI2cDev}
use kasop.Power.Backend.{write_tries, write_retry, after_try, get_i2c_address, i2c_num_retries}

abbrev pub HasFailed : {S : Type 0} → S × Outcome (Unit {0}) → Type 0
HasFailed (s, ok done) = ⊥
HasFailed (s, err kind) = Unit
HasFailed (s, panic) = ⊥

map_right : {A B C : Type 0} → (B → C) → A ⊎ B → A ⊎ C
map_right f (inl a) = inl a
map_right f (inr b) = inr (f b)

module _ {B : Type 0} (inner : AsyncI2cDev B) (hashboard_idx byte : ℕ) where
  -- One transaction, and the state of the bus behind so many of them.
  abbrev pub transaction : B → B × Outcome (Unit {0})
  transaction = inner.write (get_i2c_address hashboard_idx) (byte ∷ [])

  abbrev pub behind : ℕ → B → B
  behind zero s = s
  behind (suc n) s = behind n (transaction s).0

  retried :
      (r : B × Outcome (Unit {0})) (n k : ℕ) (s : B)
      → transaction s ≡ r
      → HasFailed r
      → k < n
      → write_tries inner (suc n) hashboard_idx byte s
        ≡ write_tries inner n hashboard_idx byte (transaction s).0
  unfolding write_tries after_try
  retried (t, ok done) n k s e failed lt = absurd failed
  retried (t, panic) n k s e failed lt = absurd failed
  retried (t, err kind) n k s e failed lt = rw e (ground arith)

  settled :
      (r : B × Outcome (Unit {0})) (n : ℕ) (s : B)
      → transaction s ≡ r
      → ((HasFailed r → ⊥) ⊎ (n ≡ 0))
      → write_tries inner (suc n) hashboard_idx byte s ≡ r
  unfolding write_tries after_try
  settled (t, ok done) n s e h = rw e
  settled (t, panic) n s e h = rw e
  settled (t, err kind) n s e (inl h) = absurd (h tt)
  settled (t, err kind) n s e (inr z) = rw (e, z)

  tries :
      (k n : ℕ) (s : B)
      → k ≤ n
      → ((i : ℕ) → i < k → HasFailed (transaction (behind i s)))
      → ((HasFailed (transaction (behind k s)) → ⊥) ⊎ (k ≡ n))
      → write_tries inner (suc n) hashboard_idx byte s ≡ transaction (behind k s)
  tries zero n s le early last = settled (transaction s) n s refl (map_right (λ e. sym e) last)
  tries (suc k) zero s le early last = absurd (omega arith)
  tries (suc k) (suc n) s le early last =
      retried (transaction s) (suc n) k s refl (early 0 (omega arith)) (omega arith)
      ∙ tries k n (transaction s).0 (omega arith) (λ i lt. early (suc i) (omega arith))
          (map_right (λ e. omega arith) last)

  -- A write to a controller ends as its transaction number `k`, counted from 0, if all before it
  -- have failed and it has not, or if it is the last of the fifteen.
  pub write_retry_lem :
      (k : ℕ) (s : B)
      → k < i2c_num_retries
      → ((i : ℕ) → i < k → HasFailed (transaction (behind i s)))
      → ((HasFailed (transaction (behind k s)) → ⊥) ⊎ (k + 1 ≡ i2c_num_retries))
      → write_retry inner hashboard_idx byte s ≡ transaction (behind k s)
  unfolding write_retry
  write_retry_lem k s lt early last =
      tries k 14 s (omega arith) early (map_right (λ e. omega arith) last)
