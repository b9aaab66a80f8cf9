-- ===== src/I2c/Readback.antt =====
-- Writes and what reads give behind them.
use kasop.Common.{
  ℕ, Option, none, some, get_elem?, get_elem?-set_self, get_elem?-set_ne, get_elem?-lt, set, ok,
  true, ◌≡◌, ◌≢◌, refl, arith, ap, subst, sym, ◌∙◌,
}
use kasop.Common.Actions.{Action, continue-ok, ◌>>=◌, lift}
use kasop.I2c.{Address, AsyncBus, Device, read, write, write_readback, same_value}
use kasop.I2c.Fake.{
  FakeI2cBus, fake_read, fake_write, fake_value, fake_store, responds, at_register,
}

same_value-ok : (a b : ℕ) → same_value a b ≡ ok tt → b ≡ a
unfolding same_value
same_value-ok a b h = ground arith

-- On every bus: a write with read-back reports success only if the value is read back.
pub write_readback-ok :
    {B : Type 0} (bus : AsyncBus B) (d : Device) (reg reg_read_back val : ℕ) (s t : B)
    → write_readback bus d reg reg_read_back val s ≡ (t, ok tt)
    → (w : B) × (write bus d reg val s ≡ (w, ok tt)) × (read bus d reg_read_back w ≡ (t, ok val))
unfolding write_readback same_value
write_readback-ok bus d reg reg_read_back val s t h =
    let compare_it : ℕ → Action _ (Unit {0}) = λ new_val. lift (same_value val new_val) in
    let (w, _, wrote, rest) =
      continue-ok (write bus d reg val s) (λ done. read bus d reg_read_back >>= compare_it) h in
    let (u, got, read_it, same) = continue-ok (read bus d reg_read_back w) compare_it rest in
    let kept : u ≡ t = λ i. (same i).0 in
    let e : same_value val got ≡ ok tt = λ i. (same i).1 in
    let value : got ≡ val = same_value-ok val got e in
    (
      w,
      wrote,
      subst (λ v. read bus d reg_read_back w ≡ (t, ok v)) value
          (subst (λ v. read bus d reg_read_back w ≡ (v, ok got)) kept read_it),
    )

register_inside :
    (o : Option (Option ℕ)) (v : ℕ) → at_register o ≡ ok v → (x : Option ℕ) × (o ≡ some x)
register_inside none v e = absurd (cc)
register_inside (some x) v e = (x, refl)

value_there :
    (bus : FakeI2cBus) (addr : Address) (reg : ℕ)
    → responds bus addr ≡ true
    → fake_value bus addr reg ≡ at_register (get_elem? bus.registers reg)
unfolding fake_value
value_there bus addr reg mine = rw mine

-- A device that answers keeps what is written to one of its registers, and no other changes.
pub fake_write-read :
    (bus : FakeI2cBus) (addr : Address) (reg val old other : ℕ)
    → fake_value bus addr reg ≡ ok old
    → responds bus addr ≡ true
    → other ≢ reg
    → (done : FakeI2cBus) × (fake_write addr reg val bus ≡ (done, ok tt))
      × (fake_read addr reg done ≡ (done, ok val))
      × (fake_read addr other done ≡ (done, fake_value bus addr other))
unfolding fake_write fake_read fake_store
fake_write-read bus addr reg val old other there mine ne =
    let inside =
      register_inside (get_elem? bus.registers reg) old
        (sym (value_there bus addr reg mine) ∙ there) in
    let done : FakeI2cBus = record bus { registers = set bus.registers reg (some val) } in
    let reads : (r : ℕ) → fake_value done addr r ≡ at_register (get_elem? done.registers r) =
      λ r. value_there done addr r mine in
    (
      done,
      rw (there, mine),
      ap (λ v. (done, v))
          (reads reg
            ∙ ap at_register (
                get_elem?-set_self bus.registers reg (some val)
                  (get_elem?-lt bus.registers reg inside.1))),
      ap (λ v. (done, v))
          (reads other
            ∙ (ap at_register
                  (get_elem?-set_ne bus.registers reg other (some val) (λ e. ne (sym e)))
                ∙ sym (value_there bus addr other mine))),
    )
