-- ===== src/Monitor/Aggregate.antt =====
-- `TemperatureAccumulator` of src/monitor.rs: one temperature out of those of all chains.
use kasop.Common.{
  suc, ◌≡◌, refl, sym, subst, lt→ltb, ◌∙◌, ap, ◌⊎◌, inl, inr, List, [], ◌∷◌, ◌++◌, length, ltb,
  if◌then◌else◌, In, arith,
}
use kasop.Common.Int.{ℤ, pos, ◌≤ℤ◌, max_ℤ, max_ℤ_bounds, max_ℤ_cases}
use kasop.Monitor.Chain.{ChainTemperature}

pub record TemperatureAccumulator : Type 0 where
  pub chain_temperatures : List ChainTemperature

abbrev pub new_accumulator : TemperatureAccumulator
new_accumulator = record { chain_temperatures = [] }

unfoldable pub add_chain_temp : TemperatureAccumulator → ChainTemperature → TemperatureAccumulator
add_chain_temp acc temp = record { chain_temperatures = acc.chain_temperatures ++ (temp ∷ []) }

-- `temps.drain(..).fold(0.0, |a, b| a.max(b))` from `a` on.
abbrev fold_max : ℤ → List ℤ → ℤ
fold_max a [] = a
fold_max a (t ∷ ts) = fold_max (max_ℤ a t) ts

unfoldable pub finish : List ℤ → ChainTemperature
finish temps =
    if ltb 0 (length temps)
    then ChainTemperature.ok (fold_max (pos 0) temps)
    else ChainTemperature.unknown

-- The loop over the chains, with the measurements collected so far.
unfoldable pub collect : List ChainTemperature → List ℤ → ChainTemperature
unfolding finish
collect [] temps = finish temps
collect (ChainTemperature.failed ∷ rest) temps = ChainTemperature.failed
collect (ChainTemperature.unknown ∷ rest) temps = collect rest temps
collect (ChainTemperature.ok t ∷ rest) temps = collect rest (temps ++ (t ∷ []))

unfoldable pub calc_result : TemperatureAccumulator → ChainTemperature
unfolding collect
calc_result acc = collect acc.chain_temperatures []

-- The measurements among the temperatures.
measured : List ChainTemperature → List ℤ
measured [] = []
measured (ChainTemperature.ok t ∷ rest) = t ∷ measured rest
measured (ChainTemperature.failed ∷ rest) = measured rest
measured (ChainTemperature.unknown ∷ rest) = measured rest

append_one : (xs : List ℤ) (t : ℤ) (ys : List ℤ) → (xs ++ (t ∷ [])) ++ ys ≡ xs ++ (t ∷ ys)
append_one [] t ys = refl
append_one (x ∷ xs) t ys = ap (◌∷◌ x) (append_one xs t ys)

append_none : (xs : List ℤ) → xs ++ [] ≡ xs
append_none [] = refl
append_none (x ∷ xs) = ap (◌∷◌ x) (append_none xs)

collect-measured :
    (cts : List ChainTemperature) (temps : List ℤ)
    → (In ChainTemperature.failed cts × (collect cts temps ≡ ChainTemperature.failed))
      ⊎ ((¬ In ChainTemperature.failed cts) × (collect cts temps ≡ finish (temps ++ measured cts)))
unfolding collect measured
collect-measured [] temps = inr (λ h. h, ap finish (sym (append_none temps)))
collect-measured (ChainTemperature.failed ∷ rest) temps = inl (inl refl, refl)
collect-measured (ChainTemperature.unknown ∷ rest) temps = elim (collect-measured rest temps) [
  | inl (i, e) ↦ inl (inr i, e)
  | inr (n, e) ↦ inr (λ h. elim h [ inl bad ↦ cc | inr i ↦ n i ], e)
]
collect-measured (ChainTemperature.ok t ∷ rest) temps =
    elim (collect-measured rest (temps ++ (t ∷ []))) [
      | inl (i, e) ↦ inl (inr i, e)
      | inr (n, e) ↦ inr (
        λ h. elim h [ inl bad ↦ cc | inr i ↦ n i ],
        e ∙ ap finish (append_one temps t (measured rest)),
      )
    ]

In-measured :
    (cts : List ChainTemperature) (t : ℤ) → In (ChainTemperature.ok t) cts → In t (measured cts)
unfolding measured
In-measured [] t i = i
In-measured (ChainTemperature.ok u ∷ rest) t (inl e) = inl (cc)
In-measured (ChainTemperature.ok u ∷ rest) t (inr i) = inr (In-measured rest t i)
In-measured (ChainTemperature.failed ∷ rest) t (inl e) = absurd (cc)
In-measured (ChainTemperature.failed ∷ rest) t (inr i) = In-measured rest t i
In-measured (ChainTemperature.unknown ∷ rest) t (inl e) = absurd (cc)
In-measured (ChainTemperature.unknown ∷ rest) t (inr i) = In-measured rest t i

measured-In :
    (cts : List ChainTemperature) (t : ℤ) → In t (measured cts) → In (ChainTemperature.ok t) cts
unfolding measured
measured-In [] t i = i
measured-In (ChainTemperature.ok u ∷ rest) t (inl e) = inl (ap ChainTemperature.ok e)
measured-In (ChainTemperature.ok u ∷ rest) t (inr i) = inr (measured-In rest t i)
measured-In (ChainTemperature.failed ∷ rest) t i = inr (measured-In rest t i)
measured-In (ChainTemperature.unknown ∷ rest) t i = inr (measured-In rest t i)

≤ℤ-trans : (a b c : ℤ) → a ≤ℤ b → b ≤ℤ c → a ≤ℤ c
≤ℤ-trans a b c h k = omega arith

fold_max-start : (a : ℤ) (ts : List ℤ) → a ≤ℤ fold_max a ts
fold_max-start a [] = omega arith
fold_max-start a (t ∷ ts) =
    ≤ℤ-trans a (max_ℤ a t) (fold_max (max_ℤ a t) ts) (max_ℤ_bounds a t).0
      (fold_max-start (max_ℤ a t) ts)

fold_max-bound : (a : ℤ) (ts : List ℤ) (t : ℤ) → In t ts → t ≤ℤ fold_max a ts
fold_max-bound a [] t i = absurd i
fold_max-bound a (u ∷ ts) t (inl e) = rw e (
    ≤ℤ-trans u (max_ℤ a u) (fold_max (max_ℤ a u) ts) (max_ℤ_bounds a u).1
      (fold_max-start (max_ℤ a u) ts))
fold_max-bound a (u ∷ ts) t (inr i) = fold_max-bound (max_ℤ a u) ts t i

fold_max-In : (a : ℤ) (ts : List ℤ) → (fold_max a ts ≡ a) ⊎ In (fold_max a ts) ts
fold_max-In a [] = inl refl
fold_max-In a (t ∷ ts) = elim (fold_max-In (max_ℤ a t) ts) [
  | inl e ↦ elim (max_ℤ_cases a t) [ inl f ↦ inl (e ∙ f) | inr f ↦ inr (inl (e ∙ f)) ]
  | inr i ↦ inr (inr i)
]

-- What a temperature says of those that it stands for: a failure, of one of them; no temperature,
-- that none is measured; a temperature, that none failed, that it is an upper bound of zero and
-- of all that are measured, and that it is one of these.
abbrev pub IsAggregate : List ChainTemperature → ChainTemperature → Type 0
IsAggregate cts ChainTemperature.failed = In ChainTemperature.failed cts
IsAggregate cts ChainTemperature.unknown =
    (¬ In ChainTemperature.failed cts) × ((t : ℤ) → ¬ In (ChainTemperature.ok t) cts)
IsAggregate cts (ChainTemperature.ok m) =
    (¬ In ChainTemperature.failed cts)
    × (pos 0 ≤ℤ m)
    × ((t : ℤ) → In (ChainTemperature.ok t) cts → t ≤ℤ m)
    × ((m ≡ pos 0) ⊎ In (ChainTemperature.ok m) cts)
    × ((t : ℤ) × In (ChainTemperature.ok t) cts)

finish-IsAggregate :
    (cts : List ChainTemperature) (ts : List ℤ)
    → ¬ In ChainTemperature.failed cts
    → measured cts ≡ ts
    → IsAggregate cts (finish ts)
unfolding finish
finish-IsAggregate cts [] h e = (h, λ t i. subst (λ ts. In t ts) e (In-measured cts t i))
finish-IsAggregate cts (u ∷ ts) h e = rw (lt→ltb 0 (suc (length ts)) (omega arith)) (
  h,
  fold_max-start (pos 0) (u ∷ ts),
  λ t i. fold_max-bound (pos 0) (u ∷ ts) t (subst (λ ts. In t ts) e (In-measured cts t i)),
  elim (fold_max-In (pos 0) (u ∷ ts)) [
    | inl z ↦ inl z
    | inr i ↦ inr (measured-In cts _ (subst (λ xs. In (fold_max (pos 0) (u ∷ ts)) xs) (sym e) i))
  ],
  (u, measured-In cts u (subst (λ xs. In u xs) (sym e) (inl refl))),
)

-- The result is a failure exactly if a chain failed, unknown exactly if none failed and none is
-- measured, and otherwise the greatest of the measurements and zero.
pub calc_result-IsAggregate :
    (acc : TemperatureAccumulator) → IsAggregate acc.chain_temperatures (calc_result acc)
unfolding calc_result
calc_result-IsAggregate acc = elim (collect-measured acc.chain_temperatures []) [
  | inl (i, e) ↦ rw e i
  | inr (n, e) ↦ rw e (finish-IsAggregate acc.chain_temperatures _ n refl)
]
