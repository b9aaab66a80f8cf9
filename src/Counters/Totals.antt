-- ===== src/Counters/Totals.antt =====
-- The counters of a chip are the totals of its cores, and those of the hashchain the totals of its
-- chips, up to the wrap-around; what one nonce or one error changes.
use kasop.Common.{
  ℕ, zero, suc, ◌+◌, ◌/◌, ◌%◌, ◌^◌, ◌<◌, List, [], ◌∷◌, length, length-set, get_elem?, get_elem?-lt,
  get_elem?-set_self, set, All, some, ok, ◌≡◌, refl, ◌∙◌, subst, arith,
}
use kasop.Common.Bits.Fields.{mask_as_mod}
use kasop.Bm1387.Address.{core_address}
use kasop.Counters.{
  Core, Chip, HashChain, core_adr_space_size, add, add_valid_core, add_valid_chip, add_error_core,
  add_error_chip,
}

module _ {A : Type 0} (f : A → ℕ) where
  abbrev pub total : List A → ℕ
  total [] = 0
  total (x ∷ xs) = f x + total xs

  pub total-set :
      (xs : List A) (i : ℕ) (x y : A)
      → get_elem? xs i ≡ some x
      → total (set xs i y) + f x ≡ total xs + f y
  total-set [] i x y e = absurd (cc)
  total-set (z ∷ xs) zero x y e = let same : z ≡ x = cc in rw same (omega arith)
  total-set (z ∷ xs) (suc i) x y e = omega (arith, total-set xs i x y e)

pub All-set :
    {A : Type 0} (P : A → Type 0) (xs : List A) (i : ℕ) (y : A)
    → All P xs
    → P y
    → All P (set xs i y)
All-set P [] i y h p = tt
All-set P (x ∷ xs) zero y (a, h) p = (p, h)
All-set P (x ∷ xs) (suc i) y (a, h) p = (a, All-set P xs i y h p)

pub All-get :
    {A : Type 0} (P : A → Type 0) (xs : List A) (i : ℕ) (x : A)
    → All P xs
    → get_elem? xs i ≡ some x
    → P x
All-get P [] i x h e = absurd (cc)
All-get P (y ∷ xs) zero x (a, h) e = let same : y ≡ x = cc in subst P same a
All-get P (y ∷ xs) (suc i) x (a, h) e = All-get P xs i x h e

pub get-lt :
    {A : Type 0} (xs : List A) (i : ℕ) → i < length xs → (x : A) × (get_elem? xs i ≡ some x)
get-lt [] i h = absurd (omega arith)
get-lt (x ∷ xs) zero h = (x, refl)
get-lt (x ∷ xs) (suc i) h = get-lt xs i (omega arith)

pub record IsChip (c : Chip) : Type 0 where
  pub cores : length c.core ≡ core_adr_space_size
  pub valid_total : c.valid % 2 ^ 32 ≡ total (λ k. k.valid) c.core % 2 ^ 32
  pub errors_total : c.errors % 2 ^ 32 ≡ total (λ k. k.errors) c.core % 2 ^ 32

pub record IsHashChain (h : HashChain) : Type 0 where
  pub chips : All IsChip h.chip
  pub valid_total : h.valid % 2 ^ 32 ≡ total (λ c. c.valid) h.chip % 2 ^ 32
  pub errors_total : h.errors % 2 ^ 32 ≡ total (λ c. c.errors) h.chip % 2 ^ 32

-- A sum of which one part grows by `n` with wrap-around, as does the total.
pub grown :
    (t s s' x n : ℕ)
    → t % 2 ^ 32 ≡ s % 2 ^ 32
    → s' + x ≡ s + (x + n) % 2 ^ 32
    → (t + n) % 2 ^ 32 % 2 ^ 32 ≡ s' % 2 ^ 32
grown t s s' x n h e = omega arith

pub add_valid_chip-IsChip :
    (core n : ℕ) (c : Chip)
    → IsChip c
    → core < core_adr_space_size
    → (d : Chip) × (old : Core) × (add_valid_chip core n c ≡ ok d)
      × IsChip d
      × (d.valid ≡ add c.valid n)
      × (d.errors ≡ c.errors)
      × (get_elem? c.core core ≡ some old)
      × (get_elem? d.core core ≡ some (add_valid_core old n))
unfolding add_valid_chip add_valid_core
add_valid_chip-IsChip core n c v inside =
    let (old, got) = get-lt c.core core (omega (arith, v.cores)) in
    let new : Core = add_valid_core old n in
    let sums = total-set (λ k. k.valid) c.core core old new got in
    let errs = total-set (λ k. k.errors) c.core core old new got in
    (
      record c { valid = add c.valid n; core = set c.core core new },
      old,
      rw got,
      record {
        cores = length-set c.core core new ∙ v.cores;
        valid_total = grown c.valid (total (λ k. k.valid) c.core) _ old.valid n v.valid_total sums;
        errors_total = omega (arith, v.errors_total, errs);
      },
      refl,
      refl,
      got,
      get_elem?-set_self c.core core new (get_elem?-lt c.core core got),
    )

pub add_error_chip-IsChip :
    (core : ℕ) (c : Chip)
    → IsChip c
    → core < core_adr_space_size
    → (d : Chip) × (add_error_chip core c ≡ ok d)
      × IsChip d
      × (d.errors ≡ add c.errors 1)
      × (d.valid ≡ c.valid)
unfolding add_error_chip add_error_core
add_error_chip-IsChip core c v inside =
    let (old, got) = get-lt c.core core (omega (arith, v.cores)) in
    let new : Core = add_error_core old in
    let sums = total-set (λ k. k.errors) c.core core old new got in
    let same = total-set (λ k. k.valid) c.core core old new got in
    (
      record c { errors = add c.errors 1; core = set c.core core new },
      rw got,
      record {
        cores = length-set c.core core new ∙ v.cores;
        valid_total = omega (arith, v.valid_total, same);
        errors_total =
            grown c.errors (total (λ k. k.errors) c.core) _ old.errors 1 v.errors_total sums;
      },
      refl,
      refl,
    )

pub core_address-lt : (nonce : ℕ) → (core_address nonce).core < core_adr_space_size
unfolding core_address
core_address-lt nonce = omega (arith, mask_as_mod 7 (nonce / 2 ^ 24))
