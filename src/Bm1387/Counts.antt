-- ===== src/Bm1387/Counts.antt =====
-- The numbers of midstates that `MidstateCount::new` of src/bm1387.rs takes.
use kasop.Common.{
  ℕ, ◌-◌, ◌^◌, ◌==◌, ==_iff, Bool-cases, ok, panic, ◌≡◌, ◌≢◌, refl, sym, ◌⊎◌, inl, inr, arith,
}
use kasop.Bm1387.Midstate.{MidstateCount, new, to_reg, to_count, to_bits, to_mask, IsMidstateCount}

-- The operations agree on a count.
abbrev pub Taken : ℕ → MidstateCount → Type 0
Taken count m =
    (to_count m ≡ count) × (to_mask m ≡ count - 1) × (2 ^ to_bits m ≡ count) × IsMidstateCount m

-- `MidstateCount::new` panics exactly on the counts other than 1, 2 and 4; each of these comes back
-- from `to_count`, its mask is one less, and the FPGA register for it is the one of that count.
pub new-to_reg :
    {R : Type 0} (one two four : R) (count : ℕ)
    → ((new count ≡ panic) × (count ≢ 1) × (count ≢ 2) × (count ≢ 4))
      ⊎ ((m : MidstateCount) × (new count ≡ ok m)
          × Taken count m
          × (((count ≡ 1) × (to_reg one two four m ≡ ok one))
              ⊎ (((count ≡ 2) × (to_reg one two four m ≡ ok two))
                  ⊎ ((count ≡ 4) × (to_reg one two four m ≡ ok four)))))
unfolding new to_reg
new-to_reg one two four count = elim (Bool-cases (count == 1)) [
  | inl e ↦
      let h = (==_iff count 1).0 e in
      inr (record { log2 = 0 }, rw e, (sym h, omega arith, sym h, omega arith), inl (h, refl))
  | inr a ↦ elim (Bool-cases (count == 2)) [
    | inl e ↦
        let h = (==_iff count 2).0 e in
        inr (
          record { log2 = 1 },
          rw (a, e),
          (sym h, omega arith, sym h, omega arith),
          inr (inl (h, refl)),
        )
    | inr b ↦ elim (Bool-cases (count == 4)) [
      | inl e ↦
          let h = (==_iff count 4).0 e in
          inr (
            record { log2 = 2 },
            rw (a, b, e),
            (sym h, omega arith, sym h, omega arith),
            inr (inr (h, refl)),
          )
      | inr c ↦ inl (rw (a, b, c), ground arith, ground arith, ground arith)
    ]
  ]
]
