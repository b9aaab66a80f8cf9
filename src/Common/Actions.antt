-- ===== src/Common/Actions.antt =====
-- Code that changes a state and may fail: what it did to the state before a failure stays done.
use kasop.Common.Outcomes.{Outcome, ok, err, panic}
use mathlib.Core.Path.{◌≡◌, refl}

abbrev pub Action {ℓ κ} : Type ℓ → Type κ → Type (ℓ ⊔ κ)
Action S A = S → S × Outcome A

-- What follows a run.
abbrev pub continue {ℓ κ μ} :
    {S : Type ℓ} {A : Type κ} {B : Type μ} → S × Outcome A → (A → Action S B) → S × Outcome B
continue (s, ok a) next = next a s
continue (s, err kind) next = (s, err kind)
continue (s, panic) next = (s, panic)

infixl 5 ◌>>=◌ ◌>>◌
abbrev pub ◌>>=◌ {ℓ κ μ} :
    {S : Type ℓ} {A : Type κ} {B : Type μ} → Action S A → (A → Action S B) → Action S B
(act >>= next) s = continue (act s) next

abbrev pub ◌>>◌ {ℓ κ μ} :
    {S : Type ℓ} {A : Type κ} {B : Type μ} → Action S A → Action S B → Action S B
act >> next = act >>= λ done. next

abbrev pub return {ℓ κ} : {S : Type ℓ} {A : Type κ} → A → Action S A
return a s = (s, ok a)

-- An outcome that leaves the state as it is.
abbrev pub lift {ℓ κ} : {S : Type ℓ} {A : Type κ} → Outcome A → Action S A
lift o s = (s, o)

-- A run that ends well went well at each step.
pub continue-ok {ℓ κ μ} :
    {S : Type ℓ} {A : Type κ} {B : Type μ} (r : S × Outcome A) (next : A → Action S B) {t : S}
    {b : B}
    → continue r next ≡ (t, ok b)
    → (s : S) × (a : A) × (r ≡ (s, ok a)) × (next a s ≡ (t, ok b))
continue-ok (s, ok a) next h = (s, a, refl, h)
continue-ok {B = B} (s, err kind) next {b = b} h =
    let e : ◌≡◌ {A = Outcome B} (err kind) (ok b) = λ i. (h i).1 in absurd (cc)
continue-ok {B = B} (s, panic) next {b = b} h =
    let e : ◌≡◌ {A = Outcome B} panic (ok b) = λ i. (h i).1 in absurd (cc)
