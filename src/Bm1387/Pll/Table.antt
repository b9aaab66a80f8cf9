-- ===== src/Bm1387/Pll/Table.antt =====
-- The loops over the dividers do not panic and keep the buckets well-formed; the table that they
-- leave rises strictly.
use kasop.Common.{ℕ, zero, suc, ◌+◌, ◌≤◌, ◌<◌, Option, none, some, List, [], ◌∷◌}
use kasop.Common.{
  ◌≡◌, refl, sym, ◌∙◌, subst, arith, length, length-set, length-replicate, get_elem?,
}
use kasop.Common.{
  get_elem?-set_self, get_elem?-set_ne, get_elem?-lt, set, replicate, All, In, inl, inr, ok,
}
use kasop.Common.{ℕ_discrete}
use kasop.Common.Loop.{for_range-total}
use kasop.Bm1387.Pll.{
  PllReg, PllFrequency, Bins, calc, improve, fill_bins, filled, precompute_pll_table, min_mhz,
  max_mhz,
}
use kasop.Bm1387.Pll.Step.{
  bin_of, HasDivisors, IsBins, divide, calc-divide, Placed, outside, kept, stored, improve-Placed,
  offer-total,
}

set_rounds :
    (xtal f : ℕ) (reg : PllReg) (s : Bins)
    → IsBins xtal s
    → calc reg xtal ≡ ok f
    → min_mhz ≤ bin_of f
    → (old : Option PllFrequency) → get_elem? s (bin_of f) ≡ some old
    → (b : ℕ) (p : PllFrequency)
    → get_elem? (set s (bin_of f) (some (record { frequency = f; reg = reg }))) b ≡ some (some p)
    → (bin_of p.frequency ≡ b) × (min_mhz ≤ b) × (calc p.reg xtal ≡ ok p.frequency)
set_rounds xtal f reg s v e low old got b p h = elim (ℕ_discrete (bin_of f) b) [
  | yes here ↦
      let inside : bin_of f < length s = get_elem?-lt s (bin_of f) got in
      let same =
        get_elem?-set_self s (bin_of f) (some (record { frequency = f; reg = reg })) inside in
      ground (arith, same)
  | no there ↦
      v.rounds b p (
        sym (get_elem?-set_ne s (bin_of f) b (some (record { frequency = f; reg = reg })) there)
        ∙ h)
]

Placed-IsBins :
    (xtal f : ℕ) (reg : PllReg) (s t : Bins)
    → IsBins xtal s
    → calc reg xtal ≡ ok f
    → Placed f reg s t
    → IsBins xtal t
Placed-IsBins xtal f reg s t v e (outside h same) = subst (IsBins xtal) (sym same) v
Placed-IsBins xtal f reg s t v e (kept old got near same) = subst (IsBins xtal) (sym same) v
Placed-IsBins xtal f reg s t v e (stored old got far low same) =
    subst (IsBins xtal) (sym same) (record {
      size = length-set s (bin_of f) (some (record { frequency = f; reg = reg })) ∙ v.size;
      rounds = set_rounds xtal f reg s v e low old got;
    })

improve-total :
    (xtal : ℕ) (reg : PllReg)
    → HasDivisors reg
    → (s : Bins) → IsBins xtal s
    → (t : Bins) × (improve xtal reg s ≡ ok t) × IsBins xtal t
improve-total xtal reg h s v =
    let done = offer-total reg s (divide reg xtal) v.size in
    let runs : improve xtal reg s ≡ ok done.0 =
      unfold improve in rw (calc-divide reg xtal h) done.1 in
    let cut = improve-Placed xtal reg s done.0 runs in
    (done.0, runs, Placed-IsBins xtal cut.0 reg s done.0 v cut.1 cut.2)

pub fill_bins-total :
    (xtal : ℕ) (s : Bins) → IsBins xtal s → (t : Bins) × (fill_bins xtal s ≡ ok t) × IsBins xtal t
unfolding fill_bins
fill_bins-total xtal = for_range-total (IsBins xtal) _ 1 7 λ postdiv1 s p q.
    for_range-total (IsBins xtal) _ 1 63
      (λ refdiv s' p' q'.
        for_range-total (IsBins xtal) _ 1 postdiv1
          (λ postdiv2 s'' p'' q''.
            for_range-total (IsBins xtal) _ 32 96
              (λ fbdiv s3 p3 q3. improve-total xtal _ (p', p, p'') s3) s'')
          s')
      s

abbrev pub Rises : List PllFrequency → Type 0
Rises [] = Unit {0}
Rises (p ∷ ps) = All (λ q. p.frequency < q.frequency) ps × Rises ps

pub In-filled :
    (bins : Bins) (b : ℕ) (p : PllFrequency) → get_elem? bins b ≡ some (some p) → In p (filled bins)
unfolding filled
In-filled [] b p e = cc
In-filled (none ∷ bins) zero p e = cc
In-filled (none ∷ bins) (suc b) p e = In-filled bins b p e
In-filled (some q ∷ bins) zero p e = inl (ground (arith, e))
In-filled (some q ∷ bins) (suc b) p e = inr (In-filled bins b p e)

pub filled-All :
    (P : PllFrequency → Type 0) (bins : Bins)
    → ((b : ℕ) (p : PllFrequency) → get_elem? bins b ≡ some (some p) → P p)
    → All P (filled bins)
unfolding filled
filled-All P [] h = tt
filled-All P (none ∷ bins) h = filled-All P bins (λ b. h (suc b))
filled-All P (some p ∷ bins) h = (h 0 p refl, filled-All P bins (λ b. h (suc b)))

filled-Rises :
    (k : ℕ) (bins : Bins)
    → ((b : ℕ) (p : PllFrequency) → get_elem? bins b ≡ some (some p) → bin_of p.frequency ≡ k + b)
    → Rises (filled bins)
unfolding filled
filled-Rises k [] h = tt
filled-Rises k (none ∷ bins) h = filled-Rises (k + 1) bins (λ b p e. omega (arith, h (suc b) p e))
filled-Rises k (some p ∷ bins) h = (
  filled-All (λ q. p.frequency < q.frequency) bins
      (λ b q e. omega (arith, h 0 p refl, h (suc b) q e)),
  filled-Rises (k + 1) bins (λ b q e. omega (arith, h (suc b) q e)),
)

pub empty-IsBins : (xtal : ℕ) → IsBins xtal (replicate (max_mhz + 1) none)
empty-IsBins xtal = record {
  size = length-replicate {A = Option PllFrequency} (max_mhz + 1) none;
  rounds = λ b p e. absurd (no_entry (max_mhz + 1) b p e);
}
  where
    no_entry : (n b : ℕ) (p : PllFrequency) → get_elem? (replicate n none) b ≡ some (some p) → ⊥
    no_entry zero b p e = cc
    no_entry (suc n) zero p e = cc
    no_entry (suc n) (suc b) p e = no_entry n b p e

-- For every crystal the table is built without a panic; its frequencies rise strictly, and each
-- entry has the frequency that its divider gives, which rounds to 100 MHz or more.
pub precompute_pll_table_lem :
    (xtal : ℕ)
    → (table : List PllFrequency) × (precompute_pll_table xtal ≡ ok table)
      × Rises table
      × All (λ p. (calc p.reg xtal ≡ ok p.frequency) × (min_mhz ≤ bin_of p.frequency)) table
unfolding precompute_pll_table
precompute_pll_table_lem xtal =
    let done = fill_bins-total xtal (replicate (max_mhz + 1) none) (empty-IsBins xtal) in
    (
      filled done.0,
      rw done.1,
      filled-Rises 0 done.0 (λ b p e. omega (arith, (done.2.rounds b p e).0)),
      filled-All _ done.0 (λ b p e. ((done.2.rounds b p e).2, omega (arith, done.2.rounds b p e))),
    )
