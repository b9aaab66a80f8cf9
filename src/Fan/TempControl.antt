-- ===== src/Fan/TempControl.antt =====
-- src/fan/pid.rs and src/fan/pid/offset_pid.rs. A temperature, a target and the output of the
-- controller are integers, in 1/256 of a degree or of a percent; a time is in nanoseconds. The
-- controller of the crate `pid_control` is a parameter.
use kasop.Common.{ℕ, ◌+◌, ◌*◌, ◌/◌, ◌-◌, Outcome, ok, ◌>>=◌}
use kasop.Common.Int.{ℤ, pos, negsuc, pos_part, neg_part, sub_ℕ, ◌+ℤ◌}
use kasop.Fan.{Speed, new_speed}

-- The operations of `pid_control::PIDController` that are called.
pub record PidController (P : Type 0) : Type 0 where
  pub new : ℤ → ℤ → ℤ → P
  pub set_limits : P → ℤ → ℤ → P
  pub set_target : P → ℤ → P
  pub update : P → ℤ → ℕ → P × ℤ

pub record OffsetPidController (P : Type 0) : Type 0 where
  pub pid : P
  pub offset : ℤ

pub record TempControl (P : Type 0) : Type 0 where
  pub pid : OffsetPidController P
  pub last_update : ℕ

abbrev pub percent : ℕ → ℤ
percent n = pos (n * 256)

infixl 65 ◌-ℤ◌
unfoldable pub ◌-ℤ◌ : ℤ → ℤ → ℤ
a -ℤ b = sub_ℕ (pos_part a + neg_part b) (neg_part a + pos_part b)

-- `as usize` of a float: towards zero, and zero for what is negative.
unfoldable pub as_usize : ℤ → ℕ
as_usize (pos n) = n / 256
as_usize (negsuc n) = 0

module _ {P : Type 0} (lib : PidController P) where
  unfoldable pub offset_set_limits : OffsetPidController P → ℤ → ℤ → OffsetPidController P
  unfolding ◌-ℤ◌
  offset_set_limits c min max = record c {
    pid = lib.set_limits c.pid (min -ℤ c.offset) (max -ℤ c.offset);
  }

  unfoldable pub offset_set_target : OffsetPidController P → ℤ → OffsetPidController P
  offset_set_target c target = record c { pid = lib.set_target c.pid target }

  unfoldable pub offset_update : OffsetPidController P → ℤ → ℕ → OffsetPidController P × ℤ
  unfolding ◌+ℤ◌
  offset_update c value delta_t =
      let (pid, output) = lib.update c.pid value delta_t in
      (record c { pid = pid }, output +ℤ c.offset)

  unfoldable pub set_warm_up_limits : TempControl P → TempControl P
  unfolding offset_set_limits
  set_warm_up_limits t = record t { pid = offset_set_limits t.pid (percent 60) (percent 100) }

  unfoldable pub set_normal_limits : TempControl P → TempControl P
  unfolding offset_set_limits
  set_normal_limits t = record t { pid = offset_set_limits t.pid (percent 1) (percent 100) }

  unfoldable pub set_target : TempControl P → ℤ → TempControl P
  unfolding offset_set_target
  set_target t target = record t { pid = offset_set_target t.pid target }

  -- The clock is read twice, for the time since the last update and for the next one.
  unfoldable pub update : TempControl P → ℤ → ℕ → ℕ → Outcome (TempControl P × Speed)
  unfolding offset_update as_usize new_speed
  update t temperature now after =
      let (pid, pwm) = offset_update t.pid temperature (now - t.last_update) in
      new_speed (as_usize pwm) >>= λ speed. ok (record { pid = pid; last_update = after }, speed)

  -- The gains are -5, -0.03 (rounded to 8/256) and -0.15 (38/256).
  unfoldable pub new_temp_control : ℕ → TempControl P
  unfolding set_warm_up_limits
  new_temp_control now = set_warm_up_limits (record {
    pid = record { pid = lib.new (negsuc 1279) (negsuc 7) (negsuc 37); offset = percent 70 };
    last_update = now;
  })
