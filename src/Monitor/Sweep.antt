-- ===== src/Monitor/Sweep.antt =====
-- The loop of `do_tick` in src/monitor.rs over the chains.
use kasop.Common.{
  ℕ, zero, suc, ◌+◌, ◌*◌, List, [], ◌∷◌, ◌++◌, get_elem?, some, Bool, false, ◌||◌, ◌≡◌, refl, ap,
  sym, subst, true, ◌⊎◌, inl, inr, In, arith, Bool-cases, length,
}
use kasop.Monitor.Chain.{ChainTemperature, Chain, tick, get_temperature, is_warming_up}
use kasop.Monitor.Aggregate.{TemperatureAccumulator, add_chain_temp}
use kasop.Monitor.Tick.{Sweep, all_good, met_broken, before, is_broken, sweep}

In-append_left : (t : ChainTemperature) (xs ys : List ChainTemperature) → In t xs → In t (xs ++ ys)
In-append_left t [] ys i = absurd i
In-append_left t (x ∷ xs) ys (inl e) = inl e
In-append_left t (x ∷ xs) ys (inr i) = inr (In-append_left t xs ys i)

In-append_last : (t : ChainTemperature) (xs : List ChainTemperature) → In t (xs ++ (t ∷ []))
In-append_last t [] = inl refl
In-append_last t (x ∷ xs) = inr (In-append_last t xs)

-- The loop ends at a broken chain, or has looked at all: then the temperatures of all chains are
-- among those that it collected, and none is broken.
abbrev pub Saw : (ℕ → ℕ) → ℕ → List Chain → TemperatureAccumulator → Sweep → Type 0
Saw clock k chains acc (met_broken cs) = length cs ≡ length chains
Saw clock k chains acc (all_good cs found w k') =
    (length cs ≡ length chains)
    × ((t : ChainTemperature) → In t acc.chain_temperatures → In t found.chain_temperatures)
    × ((i : ℕ) (c : Chain)
        → get_elem? chains i ≡ some c
        → (is_broken (tick c.state (clock (k + 2 * i))) ≡ false)
          × In (get_temperature (tick c.state (clock (k + 2 * i)))) found.chain_temperatures)

before-Saw :
    (clock : ℕ → ℕ) (k : ℕ) (c ticked : Chain) (cs : List Chain) (acc : TemperatureAccumulator)
    (s : Sweep)
    → is_broken (tick c.state (clock k)) ≡ false
    → Saw clock (k + 2) cs (add_chain_temp acc (get_temperature (tick c.state (clock k)))) s
    → Saw clock k (c ∷ cs) acc (before ticked s)
unfolding add_chain_temp
before-Saw clock k c ticked cs acc (met_broken ds) good h = ap suc h
before-Saw clock k c ticked cs acc (all_good ds found w k') good (len, keeps, sees) =
    (ap suc len, λ t i. keeps t (In-append_left t _ _ i), each)
  where
    each :
        (i : ℕ) (d : Chain)
        → get_elem? (c ∷ cs) i ≡ some d
        → (is_broken (tick d.state (clock (k + 2 * i))) ≡ false)
          × In (get_temperature (tick d.state (clock (k + 2 * i)))) found.chain_temperatures
    each zero d e =
        let same : c ≡ d = cc in
        let now : k + 2 * 0 ≡ k = omega arith in
        rw (now, ← same) (good, keeps _ (In-append_last _ _))
    each (suc i) d e =
        let later : k + 2 * suc i ≡ (k + 2) + 2 * i = omega arith in rw later (sees i d e)

pub sweep-Saw :
    (clock : ℕ → ℕ) (k : ℕ) (cs : List Chain) (acc : TemperatureAccumulator) (w : Bool)
    → Saw clock k cs acc (sweep clock k cs acc w)
unfolding sweep
sweep-Saw clock k [] acc w = (refl, λ t i. i, λ i c e. absurd (cc))
sweep-Saw clock k (c ∷ cs) acc w = elim (Bool-cases (is_broken (tick c.state (clock k)))) [
  | inl e ↦ rw e refl
  | inr e ↦
      let state = tick c.state (clock k) in
      let more = w || is_warming_up state (clock (k + 1)) in
      let h = sweep-Saw clock (k + 2) cs (add_chain_temp acc (get_temperature state)) more in
      rw e (before-Saw clock k c (record c { state = state }) cs acc _ e h)
]

-- What the loop does to the chains: each one, from the first on, is ticked at its time, up to the
-- first that is then broken; those behind that one are as they were.
abbrev pub Ticked : (ℕ → ℕ) → ℕ → List Chain → List Chain → Type 0
Ticked clock k [] [] = Unit {0}
Ticked clock k (c ∷ cs) (d ∷ ds) =
    (d ≡ record c { state = tick c.state (clock k) })
    × (((is_broken (tick c.state (clock k)) ≡ true) × (ds ≡ cs))
        ⊎ ((is_broken (tick c.state (clock k)) ≡ false) × Ticked clock (k + 2) cs ds))
Ticked clock k cs ds = ⊥

abbrev pub chains_of : Sweep → List Chain
chains_of (met_broken cs) = cs
chains_of (all_good cs acc w k) = cs

before-chains : (c : Chain) (s : Sweep) → chains_of (before c s) ≡ c ∷ chains_of s
before-chains c (met_broken cs) = refl
before-chains c (all_good cs acc w k) = refl

pub sweep-Ticked :
    (clock : ℕ → ℕ) (k : ℕ) (cs : List Chain) (acc : TemperatureAccumulator) (w : Bool)
    → Ticked clock k cs (chains_of (sweep clock k cs acc w))
unfolding sweep
sweep-Ticked clock k [] acc w = tt
sweep-Ticked clock k (c ∷ cs) acc w = elim (Bool-cases (is_broken (tick c.state (clock k)))) [
  | inl e ↦ rw e (refl, inl (e, refl))
  | inr e ↦
      let state = tick c.state (clock k) in
      let more = w || is_warming_up state (clock (k + 1)) in
      let h = sweep-Ticked clock (k + 2) cs (add_chain_temp acc (get_temperature state)) more in
      rw e (
        subst (Ticked clock k (c ∷ cs)) (sym (before-chains (record c { state = state }) _))
          (refl, inr (e, h)))
]
