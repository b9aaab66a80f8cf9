-- ===== src/Counters/Resize.antt =====
-- Fresh, reset and resized counters.
use kasop.Common.{
  ℕ, zero, suc, ◌+◌, ◌-◌, ◌≤◌, List, [], ◌∷◌, ◌++◌, map, length, length-map, length-append,
  length-replicate, take, replicate, All, ◌≡◌, refl, ◌∙◌, ap, arith,
}
use kasop.Counters.{
  Core, Chip, HashChain, new_core, reset_core, new_chip, reset_chip, new_hash_chain, reset,
  set_chip_count, chip_count,
}
use kasop.Counters.Totals.{total, IsChip, IsHashChain}

total-replicate : {A : Type 0} (f : A → ℕ) (n : ℕ) (x : A) → f x ≡ 0 → total f (replicate n x) ≡ 0
total-replicate f zero x e = refl
total-replicate f (suc n) x e = omega (arith, e, total-replicate f n x e)

total-map :
    {A : Type 0} (f : A → ℕ) (g : A → A) (xs : List A)
    → ((x : A) → f (g x) ≡ 0)
    → total f (map g xs) ≡ 0
total-map f g [] h = refl
total-map f g (x ∷ xs) h = omega (arith, h x, total-map f g xs h)

total-append :
    {A : Type 0} (f : A → ℕ) (xs ys : List A) → total f (xs ++ ys) ≡ total f xs + total f ys
total-append f [] ys = omega arith
total-append f (x ∷ xs) ys = omega (arith, total-append f xs ys)

All-replicate : {A : Type 0} (P : A → Type 0) (n : ℕ) (x : A) → P x → All P (replicate n x)
All-replicate P zero x p = tt
All-replicate P (suc n) x p = (p, All-replicate P n x p)

All-append : {A : Type 0} (P : A → Type 0) (xs ys : List A) → All P xs → All P ys → All P (xs ++ ys)
All-append P [] ys h k = k
All-append P (x ∷ xs) ys (p, h) k = (p, All-append P xs ys h k)

All-map :
    {A : Type 0} (P : A → Type 0) (g : A → A) (xs : List A)
    → All P xs
    → ((x : A) → P x → P (g x))
    → All P (map g xs)
All-map P g [] h k = tt
All-map P g (x ∷ xs) (p, h) k = (k x p, All-map P g xs h k)

take-all : {A : Type 0} (n : ℕ) (xs : List A) → length xs ≤ n → take n xs ≡ xs
take-all zero [] h = refl
take-all zero (x ∷ xs) h = absurd (omega arith)
take-all (suc n) [] h = refl
take-all (suc n) (x ∷ xs) h = ap (◌∷◌ x) (take-all n xs (omega arith))

new_chip-IsChip : IsChip new_chip
unfolding new_chip
new_chip-IsChip = record {
  cores = length-replicate 128 new_core;
  valid_total = omega (arith, total-replicate (λ (k : Core). k.valid) 128 new_core refl);
  errors_total = omega (arith, total-replicate (λ (k : Core). k.errors) 128 new_core refl);
}

reset_chip-IsChip : (c : Chip) → IsChip c → IsChip (reset_chip c)
unfolding reset_chip
reset_chip-IsChip c v = record {
  cores = length-map c.core reset_core ∙ v.cores;
  valid_total = omega (arith, total-map (λ (k : Core). k.valid) reset_core c.core (λ k. refl));
  errors_total = omega (arith, total-map (λ (k : Core). k.errors) reset_core c.core (λ k. refl));
}

new_chip_zero : (new_chip.valid ≡ 0) × (new_chip.errors ≡ 0)
unfolding new_chip
new_chip_zero = (refl, refl)

reset_chip_zero : (c : Chip) → ((reset_chip c).valid ≡ 0) × ((reset_chip c).errors ≡ 0)
unfolding reset_chip
reset_chip_zero c = (refl, refl)

-- The counters of a new hashchain, of any number of chips, are consistent.
pub new_hash_chain-IsHashChain :
    (chips difficulty now : ℕ) → IsHashChain (new_hash_chain chips difficulty now)
unfolding new_hash_chain
new_hash_chain-IsHashChain chips difficulty now = record {
  chips = All-replicate IsChip chips new_chip new_chip-IsChip;
  valid_total =
      omega (arith, total-replicate (λ (c : Chip). c.valid) chips new_chip new_chip_zero.0);
  errors_total =
      omega (arith, total-replicate (λ (c : Chip). c.errors) chips new_chip new_chip_zero.1);
}

-- A reset keeps the chips' number and consistency, and leaves every chip and the hashchain at zero.
pub reset-IsHashChain :
    (h : HashChain) (now : ℕ)
    → IsHashChain h
    → IsHashChain (reset h now)
      × (chip_count (reset h now) ≡ chip_count h)
      × ((reset h now).valid ≡ 0)
      × ((reset h now).errors ≡ 0)
      × (total (λ c. c.valid) (reset h now).chip ≡ 0)
      × (total (λ c. c.errors) (reset h now).chip ≡ 0)
unfolding reset
reset-IsHashChain h now v =
    let valid = total-map (λ (c : Chip). c.valid) reset_chip h.chip (λ c. (reset_chip_zero c).0) in
    let errors =
      total-map (λ (c : Chip). c.errors) reset_chip h.chip (λ c. (reset_chip_zero c).1) in
    (
      record {
        chips = All-map IsChip reset_chip h.chip v.chips reset_chip-IsChip;
        valid_total = omega (arith, valid);
        errors_total = omega (arith, errors);
      },
      length-map h.chip reset_chip,
      refl,
      refl,
      valid,
      errors,
    )

-- Setting a number of chips that is not below the present one keeps the counters consistent and the
-- totals as they are.
pub set_chip_count-IsHashChain :
    (n : ℕ) (h : HashChain)
    → chip_count h ≤ n
    → IsHashChain h
    → IsHashChain (set_chip_count n h)
      × (chip_count (set_chip_count n h) ≡ n)
      × ((set_chip_count n h).valid ≡ h.valid)
      × ((set_chip_count n h).errors ≡ h.errors)
unfolding set_chip_count
set_chip_count-IsHashChain n h le v =
    let more = replicate (n - length h.chip) new_chip in
    let whole = take-all n h.chip le in
    let valid = total-append (λ (c : Chip). c.valid) h.chip more in
    let errors = total-append (λ (c : Chip). c.errors) h.chip more in
    let none_valid =
      total-replicate (λ (c : Chip). c.valid) (n - length h.chip) new_chip new_chip_zero.0 in
    let none_errors =
      total-replicate (λ (c : Chip). c.errors) (n - length h.chip) new_chip new_chip_zero.1 in
    let size = length-append h.chip more in
    let fresh = length-replicate (n - length h.chip) new_chip in
    rw whole (
      record {
        chips =
            All-append IsChip h.chip more v.chips (All-replicate IsChip _ new_chip new_chip-IsChip);
        valid_total = omega (arith, v.valid_total, valid, none_valid);
        errors_total = omega (arith, v.errors_total, errors, none_errors);
      },
      omega (arith, size, fresh),
      refl,
      refl,
    )
