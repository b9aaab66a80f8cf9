-- ===== src/Fan/Limits.antt =====
-- The speeds that src/fan/pid.rs computes.
use kasop.Common.{ℕ, ◌+◌, ◌-◌, Bool, true, false, if◌then◌else◌, ◌≤◌, ◌≡◌, ok, arith}
use kasop.Common.Int.{ℤ, pos, negsuc, pos_part, neg_part, sub_ℕ_parts, ◌+ℤ◌, ◌≤ℤ◌}
use kasop.Fan.{Speed, new_speed}
use kasop.Fan.TempControl.{
  PidController, TempControl, percent, ◌-ℤ◌, as_usize, offset_set_limits, offset_set_target,
  offset_update, set_warm_up_limits, set_normal_limits, set_target, update,
}

-- Limits that are moved down by an offset are met by what is moved up by it.
shifted : (lo hi off x : ℤ) → lo -ℤ off ≤ℤ x → x ≤ℤ hi -ℤ off → (lo ≤ℤ x +ℤ off) × (x +ℤ off ≤ℤ hi)
unfolding ◌-ℤ◌ ◌+ℤ◌
shifted lo hi off x h k =
    let low = sub_ℕ_parts (pos_part lo + neg_part off) (neg_part lo + pos_part off) in
    let high = sub_ℕ_parts (pos_part hi + neg_part off) (neg_part hi + pos_part off) in
    let sum = sub_ℕ_parts (pos_part x + pos_part off) (neg_part x + neg_part off) in
    (omega arith, omega arith)

as_usize-percent :
    (lo hi : ℕ) (x : ℤ) → percent lo ≤ℤ x → x ≤ℤ percent hi → (lo ≤ as_usize x) × (as_usize x ≤ hi)
unfolding as_usize
as_usize-percent lo hi (pos n) h k = (omega arith, omega arith)
as_usize-percent lo hi (negsuc n) h k = (omega arith, omega arith)

new_speed-ok : (n : ℕ) → n ≤ 100 → new_speed n ≡ ok (record { pwm = n })
unfolding new_speed
new_speed-ok n h = ground arith

-- What the crate documents of its limits: an output that follows `set_limits` is within them.
abbrev pub Limiting : {P : Type 0} → PidController P → Type 0
Limiting {P} lib =
    (p : P) (lo hi target value : ℤ) (delta_t : ℕ)
    → lo ≤ℤ hi
    → (lo ≤ℤ (lib.update (lib.set_target (lib.set_limits p lo hi) target) value delta_t).1)
      × ((lib.update (lib.set_target (lib.set_limits p lo hi) target) value delta_t).1 ≤ℤ hi)

module _ {P : Type 0} (lib : PidController P) (limiting : Limiting lib) where
  minus-mono : (lo hi off : ℤ) → lo ≤ℤ hi → lo -ℤ off ≤ℤ hi -ℤ off
  unfolding ◌-ℤ◌
  minus-mono lo hi off h =
      let low = sub_ℕ_parts (pos_part lo + neg_part off) (neg_part lo + pos_part off) in
      let high = sub_ℕ_parts (pos_part hi + neg_part off) (neg_part hi + pos_part off) in
      omega arith

  update-ok :
      (t : TempControl P) (value : ℤ) (now after : ℕ)
      → as_usize (offset_update lib t.pid value (now - t.last_update)).1 ≤ 100
      → update lib t value now after
        ≡ ok (
          record {
            pid = (offset_update lib t.pid value (now - t.last_update)).0;
            last_update = after;
          },
          record { pwm = as_usize (offset_update lib t.pid value (now - t.last_update)).1 },
        )
  unfolding update
  update-ok t value now after h = rw (new_speed-ok _ h)

  -- With limits from `lo` to `hi` percent, a speed from `lo` to `hi` is computed.
  limited :
      (t : TempControl P) (lo hi : ℕ) (target value : ℤ) (now after : ℕ)
      → lo ≤ hi
      → hi ≤ 100
      → (r : TempControl P × Speed) × (update lib
            (set_target lib
              (record t { pid = offset_set_limits lib t.pid (percent lo) (percent hi) })
              target)
            value
            now
            after
          ≡ ok r)
        × (lo ≤ r.1.pwm)
        × (r.1.pwm ≤ hi)
  unfolding set_target offset_update offset_set_target offset_set_limits
  limited t lo hi target value now after h k =
      let off = t.pid.offset in
      let out =
        (lib.update
          (lib.set_target (lib.set_limits t.pid.pid (percent lo -ℤ off) (percent hi -ℤ off)) target)
          value (now - t.last_update)).1 in
      let inside =
        limiting t.pid.pid (percent lo -ℤ off) (percent hi -ℤ off) target value
          (now - t.last_update) (minus-mono (percent lo) (percent hi) off (omega arith)) in
      let moved = shifted (percent lo) (percent hi) off out inside.0 inside.1 in
      let (low, high) = as_usize-percent lo hi (out +ℤ off) moved.0 moved.1 in
      (
        _,
        update-ok
            (set_target lib
              (record t { pid = offset_set_limits lib t.pid (percent lo) (percent hi) }) target)
            value now after (omega arith),
        low,
        high,
      )

  -- For every controller that keeps its limits, the speed in operation is from 1 to 100 percent and
  -- the one while the miner warms up from 60 to 100: `Speed::new` does not panic.
  pub update_bounds :
      (t : TempControl P) (warming_up : Bool) (target value : ℤ) (now after : ℕ)
      → (r : TempControl P × Speed) × (update lib
            (set_target lib
              (if warming_up then set_warm_up_limits lib t else set_normal_limits lib t)
              target)
            value
            now
            after
          ≡ ok r)
        × ((if warming_up then 60 else 1) ≤ r.1.pwm)
        × (r.1.pwm ≤ 100)
  unfolding set_warm_up_limits set_normal_limits
  update_bounds t true target value now after =
      limited t 60 100 target value now after (omega arith) (omega arith)
  update_bounds t false target value now after =
      limited t 1 100 target value now after (omega arith) (omega arith)
