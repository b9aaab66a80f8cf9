-- ===== src/Bm1387/Midstate.antt =====
-- `MidstateCount` of src/bm1387.rs. The value of the FPGA register is an enumeration that the
-- build generates: its three values are arguments.
use kasop.Common.{ℕ, ◌-◌, ◌≤◌, ◌^◌, Outcome, ok, panic, ◌==◌, if◌then◌else◌}

pub record MidstateCount : Type 0 where
  pub log2 : ℕ

-- `MidstateCount::new`.
unfoldable pub new : ℕ → Outcome MidstateCount
new count =
    if count == 1
    then ok (record { log2 = 0 })
    else if count == 2
    then ok (record { log2 = 1 })
    else if count == 4
    then ok (record { log2 = 2 })
    else panic

unfoldable pub to_reg {ℓ} : {R : Type ℓ} → R → R → R → MidstateCount → Outcome R
to_reg one two four m =
    if m.log2 == 0
    then ok one
    else if m.log2 == 1
    then ok two
    else if m.log2 == 2
    then ok four
    else panic

abbrev pub to_count : MidstateCount → ℕ
to_count m = 2 ^ m.log2

abbrev pub to_bits : MidstateCount → ℕ
to_bits m = m.log2

abbrev pub to_mask : MidstateCount → ℕ
to_mask m = 2 ^ m.log2 - 1

-- What the constructor makes.
abbrev pub IsMidstateCount : MidstateCount → Type 0
IsMidstateCount m = m.log2 ≤ 2
