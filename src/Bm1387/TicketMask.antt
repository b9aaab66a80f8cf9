-- ===== src/Bm1387/TicketMask.antt =====
-- Which difficulties `TicketMaskReg::new` of src/bm1387.rs takes, and the mask that it makes of them.
use kasop.Common.{
  ℕ, zero, suc, ◌-◌, ◌^◌, ◌<◌, Bool, true, false, Outcome, ok, err, panic, ErrorKind, ◌==◌, ◌≡◌,
  ◌≢◌, ◌⊎◌, inl, inr, refl, ap, ◌∙◌, arith, Bool-cases, ◌&&◌,
}
use kasop.Bm1387.Registers.{TicketMaskReg, new_ticket_mask, swap_bytes, is_power_of_two}

-- The bits of the mask, in the order of the bytes of a hash: the highest ones, as many as the
-- exponent says.
abbrev high_bits : ℕ → Outcome TicketMaskReg → Bool
high_bits k (ok r) = swap_bytes r.ticket_mask == 2 ^ 32 - 2 ^ (32 - k)
high_bits k (err kind) = false
high_bits k panic = false

table : ℕ → Bool
table zero = true
table (suc k) = high_bits k (new_ticket_mask (2 ^ k)) && table k

table_holds : table 32 ≡ true
unfolding table new_ticket_mask
table_holds = refl

table_at : (n k : ℕ) → table n ≡ true → k < n → high_bits k (new_ticket_mask (2 ^ k)) ≡ true
unfolding table
table_at zero k h lt = absurd (omega arith)
table_at (suc n) k h lt = ground (arith, table_at n k)

from_table :
    (k : ℕ) (o : Outcome TicketMaskReg)
    → high_bits k o ≡ true
    → (r : TicketMaskReg) × (o ≡ ok r) × (swap_bytes r.ticket_mask ≡ 2 ^ 32 - 2 ^ (32 - k))
from_table k (ok r) h = (r, refl, ground arith)
from_table k (err kind) h = absurd (cc)
from_table k panic h = absurd (cc)

power_or_not :
    (n d : ℕ)
    → ((k : ℕ) × (k < n) × (d ≡ 2 ^ k))
      ⊎ (((k : ℕ) → k < n → d ≢ 2 ^ k) × (is_power_of_two n d ≡ false))
unfolding is_power_of_two
power_or_not zero d = inr (λ k lt. absurd (omega arith), refl)
power_or_not (suc n) d = elim (Bool-cases (d == 2 ^ n)) [
  | inl here ↦ inl (n, omega arith, ground arith)
  | inr no_power ↦ elim (power_or_not n d) [
    | inl (k, lt, e) ↦ inl (k, omega arith, e)
    | inr (never, tested) ↦ inr (
      λ k lt e. elim (Bool-cases (k == n)) [
        | inl same ↦
            let e' : k ≡ n = ground arith in
            let e'' : d ≡ 2 ^ n = e ∙ ap (λ j. 2 ^ j) e' in ground arith
        | inr other ↦ never k (ground arith) e
      ],
      rw (no_power, tested) refl,
    )
  ]
]

refused : (d : ℕ) → is_power_of_two 32 d ≡ false → new_ticket_mask d ≡ err ErrorKind.general
unfolding new_ticket_mask
refused d tested = elim (Bool-cases (d == 0)) [
  | inl nothing ↦ rw nothing refl
  | inr some_bits ↦ rw (some_bits, tested) refl
]

-- A ticket mask is made exactly of the powers of two that a word holds, and its set bits are then the
-- highest of the word in the order of the bytes of a hash, as many as the exponent; any other
-- difficulty is an error.
pub new_ticket_mask_lem :
    (difficulty : ℕ)
    → ((k : ℕ) × (k < 32)
        × (difficulty ≡ 2 ^ k)
        × ((r : TicketMaskReg) × (new_ticket_mask difficulty ≡ ok r)
            × (swap_bytes r.ticket_mask ≡ 2 ^ 32 - 2 ^ (32 - k))))
      ⊎ (((k : ℕ) → k < 32 → difficulty ≢ 2 ^ k)
          × (new_ticket_mask difficulty ≡ err ErrorKind.general))
new_ticket_mask_lem difficulty = elim (power_or_not 32 difficulty) [
  | inl (k, lt, e) ↦
      inl (k, lt, e, rw e (from_table k (new_ticket_mask (2 ^ k)) (table_at 32 k table_holds lt)))
  | inr (never, tested) ↦ inr (never, refused difficulty tested)
]
