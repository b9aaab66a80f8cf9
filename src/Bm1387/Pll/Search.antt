-- ===== src/Bm1387/Pll/Search.antt =====
-- What the search in a table of rising frequencies says of every entry.
use kasop.Common.{ℕ, zero, suc, ◌+◌, ◌≤◌, ◌<◌, some, List, [], ◌∷◌, ◌≡◌, refl, inl, inr, arith}
use kasop.Common.{length, get_elem?, All, compare-cases, subst}
use kasop.Bm1387.Pll.{PllFrequency, Position, found, missing, search_from}
use kasop.Bm1387.Pll.Table.{Rises}

-- Position `k` of a table, counted from `i`: the entry has the key, or the entries before are below
-- it and the others above.
abbrev pub Located : ℕ → List PllFrequency → ℕ → Position → Type 0
Located target ps i (found j) =
    (k : ℕ) × (p : PllFrequency) × (j ≡ i + k) × (get_elem? ps k ≡ some p) × (p.frequency ≡ target)
Located target ps i (missing j) =
    (k : ℕ) × (j ≡ i + k)
    × (k ≤ length ps)
    × ((m : ℕ) (p : PllFrequency) → get_elem? ps m ≡ some p → m < k → p.frequency < target)
    × ((m : ℕ) (p : PllFrequency) → get_elem? ps m ≡ some p → k ≤ m → target < p.frequency)

Located-cons :
    (target : ℕ) (q : PllFrequency) (ps : List PllFrequency) (i : ℕ) (r : Position)
    → q.frequency < target
    → Located target ps (i + 1) r
    → Located target (q ∷ ps) i r
Located-cons target q ps i (found j) h (k, p, ej, got, e) = (suc k, p, omega arith, got, e)
Located-cons target q ps i (missing j) h (k, ej, size, below, above) =
    (suc k, omega arith, omega arith, below', above')
  where
    below' :
        (m : ℕ) (p : PllFrequency)
        → get_elem? (q ∷ ps) m ≡ some p
        → m < suc k
        → p.frequency < target
    below' zero p e l = ground (arith, h)
    below' (suc m) p e l = below m p e (omega arith)

    above' :
        (m : ℕ) (p : PllFrequency)
        → get_elem? (q ∷ ps) m ≡ some p
        → suc k ≤ m
        → target < p.frequency
    above' zero p e l = absurd (omega arith)
    above' (suc m) p e l = above m p e (omega arith)

pub get-All :
    (P : PllFrequency → Type 0) (ps : List PllFrequency)
    → All P ps
    → (m : ℕ) (p : PllFrequency) → get_elem? ps m ≡ some p
    → P p
get-All P [] h m p e = absurd (cc)
get-All P (q ∷ ps) (a, h) zero p e = let same : q ≡ p = cc in subst P same a
get-All P (q ∷ ps) (a, h) (suc m) p e = get-All P ps h m p e

pub search_from-Located :
    (target : ℕ) (ps : List PllFrequency) (i : ℕ)
    → Rises ps
    → Located target ps i (search_from target ps i)
unfolding search_from
search_from-Located target [] i r =
    (0, omega arith, omega arith, λ m p e l. absurd (omega arith), λ m p e l. absurd (cc))
search_from-Located target (p ∷ ps) i (a, r) = elim (compare-cases p.frequency target) [
  | inl (e, below) ↦
      rw (e, search_from)
        (Located-cons target p ps i (search_from target ps (i + 1)) below
          (search_from-Located target ps (i + 1) r))
  | inr (inl (e, same)) ↦ rw (e, search_from) (0, p, omega arith, refl, same)
  | inr (inr (e, above)) ↦
      rw (e, search_from)
        (0, omega arith, omega arith, λ m q e' l. absurd (omega arith), all_above above)
]
  where
    all_above :
        target < p.frequency
        → (m : ℕ) (q : PllFrequency) → get_elem? (p ∷ ps) m ≡ some q
        → 0 ≤ m
        → target < q.frequency
    all_above h zero q e l = ground arith
    all_above h (suc m) q e l =
        let higher = get-All (λ q'. p.frequency < q'.frequency) ps a m q e in omega arith
