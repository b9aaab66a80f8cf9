-- ===== src/Common/Done.antt =====
-- What a run ends with: a value with a property; an error, where errors may be; never a panic.
use mathlib.Core.Path.{◌≡◌, refl}
use kasop.Common.Outcomes.{Outcome, ok, err, panic}
use kasop.Common.Actions.{Action, continue}

-- `May` is `⊥` where no error is allowed, and `Unit` where any is.
abbrev pub Ends : {S A : Type 0} → Type 0 → S × Outcome A → (S → A → Type 0) → Type 0
Ends May (s, ok a) P = P s a
Ends May (s, err kind) P = May
Ends May (s, panic) P = ⊥

pub record Done {S A : Type 0} (May : Type 0) (r : S × Outcome A) (P : S → A → Type 0)
    : Type 0 where
  pub ends : Ends May r P

module _ {S : Type 0} {May : Type 0} where
  pub Done-ok : {A : Type 0} {s : S} {a : A} {P : S → A → Type 0} → P s a → Done May (s, ok a) P
  Done-ok h = record { ends = h }

  pub Done-continue :
      {A C : Type 0} {r : S × Outcome A} {next : A → Action S C} {P : S → A → Type 0}
      {Q : S → C → Type 0}
      → Done May r P
      → ((s : S) (a : A) → P s a → Done May (next a s) Q)
      → Done May (continue r next) Q
  Done-continue {r = (s, ok a)} h later = later s a h.ends
  Done-continue {r = (s, err kind)} h later = record { ends = h.ends }
  Done-continue {r = (s, panic)} h later = record { ends = h.ends }

  pub Done-weaken :
      {A : Type 0} {r : S × Outcome A} {P Q : S → A → Type 0}
      → Done May r P
      → ((s : S) (a : A) → P s a → Q s a)
      → Done May r Q
  Done-weaken {r = (s, ok a)} h more = record { ends = more s a h.ends }
  Done-weaken {r = (s, err kind)} h more = record { ends = h.ends }
  Done-weaken {r = (s, panic)} h more = record { ends = h.ends }

-- Where no error is allowed, there is a value.
pub Done-total :
    {S A : Type 0} {r : S × Outcome A} {P : S → A → Type 0}
    → Done ⊥ r P
    → (s : S) × (a : A) × (r ≡ (s, ok a)) × P s a
Done-total {r = (s, ok a)} h = (s, a, refl, h.ends)
Done-total {r = (s, err kind)} h = absurd h.ends
Done-total {r = (s, panic)} h = absurd h.ends
