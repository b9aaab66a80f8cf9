-- ===== src/Bm1387/Pll/Step.antt =====
-- One divider offered to the buckets: what happens on every branch.
use kasop.Common.{ℕ, zero, suc, ◌+◌, ◌*◌, ◌/◌, ◌≤◌, ◌<◌, Option, none, some, [], ◌∷◌}
use kasop.Common.{◌≡◌, refl, arith, length, get_elem?}
use kasop.Common.{set, Option-cases, Bool-cases, ◌⊎◌, inl, inr, >>=-eq-ok, ok, false}
use kasop.Common.{if◌then◌else◌, ltb, ◌||◌}
use kasop.Bm1387.Pll.{
  PllReg, PllFrequency, Bins, calc, distance, remember, offer, improve, is_as_near, bin_size_hz,
  min_mhz, max_mhz,
}

-- The MHz to which a frequency is rounded.
abbrev pub bin_of : ℕ → ℕ
bin_of f = (f + 500_000) / bin_size_hz

abbrev pub HasDivisors : PllReg → Type 0
HasDivisors r = (0 < r.refdiv) × (0 < r.postdiv1) × (0 < r.postdiv2)

pub record IsBins (xtal : ℕ) (bins : Bins) : Type 0 where
  pub size : length bins ≡ max_mhz + 1
  pub rounds :
      (b : ℕ) (p : PllFrequency)
      → get_elem? bins b ≡ some (some p)
      → (bin_of p.frequency ≡ b) × (min_mhz ≤ b) × (calc p.reg xtal ≡ ok p.frequency)

pub divide : PllReg → ℕ → ℕ
divide r xtal = xtal * r.fbdiv / r.refdiv / r.postdiv1 / r.postdiv2

pub calc-divide : (r : PllReg) (xtal : ℕ) → HasDivisors r → calc r xtal ≡ ok (divide r xtal)
unfolding calc divide
calc-divide r xtal h = ground arith

-- What a step that succeeds does with the frequency that it computed.
pub data Placed (f : ℕ) (reg : PllReg) (s t : Bins) : Type 0 where
  outside : (bin_of f < min_mhz) ⊎ (max_mhz < bin_of f) → t ≡ s → Placed f reg s t
  kept :
      (old : PllFrequency)
      → get_elem? s (bin_of f) ≡ some (some old)
      → distance (bin_of f * bin_size_hz) old.frequency ≤ distance (bin_of f * bin_size_hz) f
      → t ≡ s
      → Placed f reg s t
  stored :
      (old : Option PllFrequency)
      → get_elem? s (bin_of f) ≡ some old
      → is_as_near old (bin_of f * bin_size_hz) f ≡ false
      → min_mhz ≤ bin_of f
      → t ≡ set s (bin_of f) (some (record { frequency = f; reg = reg }))
      → Placed f reg s t

remember-Placed :
    (f : ℕ) (reg : PllReg) (s t : Bins) (old : Option PllFrequency)
    → get_elem? s (bin_of f) ≡ some old
    → min_mhz ≤ bin_of f
    → remember reg s f (bin_of f) old ≡ ok t
    → Placed f reg s t
unfolding remember
remember-Placed f reg s t none got low e = stored none got refl low (ground arith)
remember-Placed f reg s t (some old) got low e =
    elim (Bool-cases (is_as_near (some old) (bin_of f * bin_size_hz) f)) [
      | inl near ↦ kept old got (ground arith) (ground arith)
      | inr far ↦ stored (some old) got far low (ground arith)
    ]

offer-Placed : (f : ℕ) (reg : PllReg) (s t : Bins) → offer reg s f ≡ ok t → Placed f reg s t
unfolding offer
offer-Placed f reg s t e = elim (Bool-cases (ltb (bin_of f) min_mhz || ltb max_mhz (bin_of f))) [
  | inl out ↦ outside (ground arith) (ground arith)
  | inr inside ↦ elim (Option-cases (get_elem? s (bin_of f))) [
    | inl gone ↦ absurd (ground arith)
    | inr (old, got) ↦ remember-Placed f reg s t old got (ground arith) (ground arith)
  ]
]

pub improve-Placed :
    (xtal : ℕ) (reg : PllReg) (s t : Bins)
    → improve xtal reg s ≡ ok t
    → (f : ℕ) × (calc reg xtal ≡ ok f) × Placed f reg s t
unfolding improve
improve-Placed xtal reg s t e =
    let cut = >>=-eq-ok (calc reg xtal) (offer reg s) e in
    (cut.0, cut.1, offer-Placed cut.0 reg s t cut.2)

get_in_range :
    (bins : Bins) (i : ℕ)
    → i < length bins
    → (o : Option PllFrequency) × (get_elem? bins i ≡ some o)
get_in_range [] i h = absurd (omega arith)
get_in_range (o ∷ bins) zero h = (o, refl)
get_in_range (o ∷ bins) (suc i) h = get_in_range bins i (omega arith)

pub offer-total :
    (reg : PllReg) (s : Bins) (f : ℕ) → length s ≡ max_mhz + 1 → (t : Bins) × (offer reg s f ≡ ok t)
unfolding offer
offer-total reg s f size = elim (Bool-cases (ltb (bin_of f) min_mhz || ltb max_mhz (bin_of f))) [
  | inl out ↦ (s, rw (out, offer))
  | inr inside ↦
      let got = get_in_range s (bin_of f) (ground arith) in
      (remembered got.0, rw (inside, got.1, offer) (unfold remember in refl))
]
  where
    remembered : Option PllFrequency → Bins
    remembered old =
        if is_as_near old (bin_of f * bin_size_hz) f
        then s
        else set s (bin_of f) (some (record { frequency = f; reg = reg }))
