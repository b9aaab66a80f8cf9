-- ===== src/Common/Loop.antt =====
-- `for i in lo..lo + n` over a state, with a body that may fail.
use Prim.Native.Nat.{ℕ, zero, suc, ◌+◌, ◌≤◌, ◌<◌}
use mathlib.Core.Path.{◌≡◌, refl, subst}
use native.Mathlib.Decide.{ℕ_discrete}
use native.Mathlib.Omega.{arith}
use kasop.Common.Outcomes.{Outcome, ok, ◌>>=◌, >>=-eq-ok}

module _ {S : Type 0} where
  unfoldable pub for_range : ℕ → ℕ → (ℕ → S → Outcome S) → S → Outcome S
  for_range lo zero body s = ok s
  for_range lo (suc n) body s = body lo s >>= for_range (lo + 1) n body

module _ {S : Type 0} (P : S → Type 0) (body : ℕ → S → Outcome S) where
  -- A body that succeeds and keeps an invariant makes a loop that does.
  pub for_range-total :
      (lo n : ℕ)
      → ((i : ℕ) (s : S) → lo ≤ i → i < lo + n → P s → (t : S) × (body i s ≡ ok t) × P t)
      → (s : S) → P s
      → (t : S) × (for_range lo n body s ≡ ok t) × P t
  unfolding for_range
  for_range-total lo zero keep s h = (s, refl, h)
  for_range-total lo (suc n) keep s h =
      let first = keep lo s (omega arith) (omega arith) h in
      let rest =
        for_range-total (lo + 1) n (λ i s' p q. keep i s' (omega arith) (omega arith)) first.0
          first.2 in
      (rest.0, rw first.1 rest.1, rest.2)

module _ {S : Type 0} (R : S → S → Type 0) (same : (s : S) → R s s)
    (both : (s t u : S) → R s t → R t u → R s u) (body : ℕ → S → Outcome S) where
  -- A loop goes as far as its rounds go.
  pub for_range-rel :
      (lo n : ℕ)
      → ((i : ℕ) (s t : S) → body i s ≡ ok t → R s t)
      → (s u : S) → for_range lo n body s ≡ ok u
      → R s u
  unfolding for_range
  for_range-rel lo zero go s u e = subst (R s) (ground arith) (same s)
  for_range-rel lo (suc n) go s u e =
      let cut = >>=-eq-ok (body lo s) (for_range (lo + 1) n body) e in
      both s cut.0 u (go lo s cut.0 cut.1) (for_range-rel (lo + 1) n go cut.0 u cut.2)

  -- Every round of a loop that succeeds was made, and the rounds after it only went on.
  pub for_range_visits :
      (lo n : ℕ)
      → ((i : ℕ) (s t : S) → body i s ≡ ok t → R s t)
      → (j : ℕ) → lo ≤ j
      → j < lo + n
      → (s u : S) → for_range lo n body s ≡ ok u
      → (a : S) × (b : S) × R s a × (body j a ≡ ok b) × R b u
  unfolding for_range
  for_range_visits lo zero go j p q s u e = absurd (omega arith)
  for_range_visits lo (suc n) go j p q s u e =
      let cut = >>=-eq-ok (body lo s) (for_range (lo + 1) n body) e in
      elim (ℕ_discrete lo j) [
        | yes h ↦ (
          s,
          cut.0,
          same s,
          subst (λ i. body i s ≡ ok cut.0) h cut.1,
          for_range-rel (lo + 1) n go cut.0 u cut.2,
        )
        | no h ↦
            let later =
              for_range_visits (lo + 1) n go j (omega arith) (omega arith) cut.0 u cut.2 in
            (later.0, later.1, both s cut.0 later.0 (go lo s cut.0 cut.1) later.2, later.3, later.4)
      ]
