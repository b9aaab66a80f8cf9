-- ===== src/Counters/Count.antt =====
-- What `add_valid` and `add_error` of src/counters.rs do with the counters of a hashchain.
use kasop.Common.{
  ℕ, ◌≤◌, ◌<◌, length, length-set, get_elem?, get_elem?-set_self, get_elem?-set_ne, set, some, leb,
  ok, ◌≡◌, ◌≢◌, refl, ◌⊎◌, inl, inr, arith, dec_lt, true, false,
}
use kasop.Bm1387.Address.{CoreAddress, core_address}
use kasop.Counters.{
  Core, Chip, HashChain, core_adr_space_size, add, add_valid_core, add_valid, add_error, chip_count,
}
use kasop.Counters.Totals.{
  total, total-set, All-set, All-get, get-lt, IsChip, IsHashChain, grown, add_valid_chip-IsChip,
  add_error_chip-IsChip, core_address-lt,
}

-- A nonce from a chip that is there is counted once in the hashchain, in its chip and in its core, and
-- in no other chip.
abbrev pub Counted : CoreAddress → HashChain → HashChain → Type 0
Counted addr h g =
    (g.valid ≡ add h.valid h.asic_difficulty)
    × (g.errors ≡ h.errors)
    × (c : Chip) × (d : Chip) × (k : Core) × (get_elem? h.chip addr.chip ≡ some c)
    × (get_elem? g.chip addr.chip ≡ some d)
    × (d.valid ≡ add c.valid h.asic_difficulty)
    × (get_elem? c.core addr.core ≡ some k)
    × (get_elem? d.core addr.core ≡ some (add_valid_core k h.asic_difficulty))
    × ((j : ℕ) → addr.chip ≢ j → get_elem? g.chip j ≡ get_elem? h.chip j)

add_valid_any :
    (addr : CoreAddress) (h : HashChain)
    → addr.core < core_adr_space_size
    → IsHashChain h
    → (g : HashChain) × (add_valid addr h ≡ ok g)
      × IsHashChain g
      × (chip_count g ≡ chip_count h)
      × (((chip_count h ≤ addr.chip) × (g ≡ h)) ⊎ ((addr.chip < chip_count h) × Counted addr h g))
unfolding add_valid
add_valid_any addr h inside v = elim (dec_lt addr.chip (length h.chip)) [
  | no gone ↦
      let t : leb (length h.chip) addr.chip ≡ true = ground arith in
      (h, rw t, v, refl, inl (omega arith, refl))
  | yes here ↦
      let t : leb (length h.chip) addr.chip ≡ false = ground arith in
      let (c, got) = get-lt h.chip addr.chip here in
      let n = h.asic_difficulty in
      let (d, k, e, w, val, errs, kc, kd) =
        add_valid_chip-IsChip addr.core n c (All-get IsChip h.chip addr.chip c v.chips got)
          inside in
      let sums = total-set (λ x. x.valid) h.chip addr.chip c d got in
      let same = total-set (λ x. x.errors) h.chip addr.chip c d got in
      (
        record h { valid = add h.valid n; chip = set h.chip addr.chip d },
        rw (t, got, e),
        record {
          chips = All-set IsChip h.chip addr.chip d v.chips w;
          valid_total =
              grown h.valid (total (λ x. x.valid) h.chip) _ c.valid n v.valid_total
                (omega (arith, sums, val));
          errors_total = omega (arith, v.errors_total, same, errs);
        },
        length-set h.chip addr.chip d,
        inr (
          here,
          (
            refl,
            refl,
            c,
            d,
            k,
            got,
            get_elem?-set_self h.chip addr.chip d here,
            val,
            kc,
            kd,
            λ j ne. get_elem?-set_ne h.chip addr.chip j d ne,
          ),
        ),
      )
]

-- For every nonce and consistent counters: `add_valid` does not panic and keeps the counters
-- consistent; a nonce of a chip that is not there changes nothing, and any other is counted.
pub add_valid-IsHashChain :
    (nonce : ℕ) (h : HashChain)
    → IsHashChain h
    → (g : HashChain) × (add_valid (core_address nonce) h ≡ ok g)
      × IsHashChain g
      × (chip_count g ≡ chip_count h)
      × (((chip_count h ≤ (core_address nonce).chip) × (g ≡ h))
          ⊎ (((core_address nonce).chip < chip_count h) × Counted (core_address nonce) h g))
add_valid-IsHashChain nonce h v = add_valid_any (core_address nonce) h (core_address-lt nonce) v

-- Likewise `add_error` of a nonce's core: it does not panic, keeps the counters consistent, and adds
-- one error to the hashchain if the chip is there and nothing otherwise; no valid nonce is counted.
pub add_error-IsHashChain :
    (nonce : ℕ) (h : HashChain)
    → IsHashChain h
    → (g : HashChain) × (add_error (core_address nonce) h ≡ ok g)
      × IsHashChain g
      × (g.valid ≡ h.valid)
      × (((chip_count h ≤ (core_address nonce).chip) × (g ≡ h))
          ⊎ (((core_address nonce).chip < chip_count h) × (g.errors ≡ add h.errors 1)))
unfolding add_error
add_error-IsHashChain nonce h v =
    let addr = core_address nonce in
    elim (dec_lt addr.chip (length h.chip)) [
      | no gone ↦
          let t : leb (length h.chip) addr.chip ≡ true = ground arith in
          (h, rw t, v, refl, inl (omega arith, refl))
      | yes here ↦
          let t : leb (length h.chip) addr.chip ≡ false = ground arith in
          let (c, got) = get-lt h.chip addr.chip here in
          let (d, e, w, errs, val) =
            add_error_chip-IsChip addr.core c (All-get IsChip h.chip addr.chip c v.chips got)
              (core_address-lt nonce) in
          let sums = total-set (λ x. x.errors) h.chip addr.chip c d got in
          let same = total-set (λ x. x.valid) h.chip addr.chip c d got in
          (
            record h { errors = add h.errors 1; chip = set h.chip addr.chip d },
            rw (t, got, e),
            record {
              chips = All-set IsChip h.chip addr.chip d v.chips w;
              valid_total = omega (arith, v.valid_total, same, val);
              errors_total =
                  grown h.errors (total (λ x. x.errors) h.chip) _ c.errors 1 v.errors_total
                    (omega (arith, sums, errs));
            },
            refl,
            inr (here, refl),
          )
    ]
