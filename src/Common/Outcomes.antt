-- ===== src/Common/Outcomes.antt =====
-- error.rs and the ways in which a function ends: a value, an `Err`, or a panic (a failed `assert!`,
-- `expect`, an index out of bounds). The texts that errors carry are left out.
use mathlib.Core.Path.{◌≡◌, refl}
use mathlib.Core.Bool.{Bool, true, false}
use mathlib.Core.Option.{Option, none, some}

-- `ErrorKind`.
pub data ErrorKind : Type 0 where
  general io uio_device uio unexpected_version hashboard hashchip chip_enumeration : ErrorKind
  i2c_hashchip fifo baud_rate gpio i2c power pll hash_chain_manager halt sensors : ErrorKind

pub data Outcome {ℓ} (A : Type ℓ) : Type ℓ where
  ok : A → Outcome A
  err : ErrorKind → Outcome A
  panic : Outcome A

infixl 5 ◌>>=◌ ◌>>◌
abbrev pub ◌>>=◌ {ℓ κ} : {A : Type ℓ} {B : Type κ} → Outcome A → (A → Outcome B) → Outcome B
panic >>= next = panic
err kind >>= next = err kind
ok a >>= next = next a

abbrev pub ◌>>◌ {ℓ} : {B : Type ℓ} → Outcome (Unit {0}) → Outcome B → Outcome B
first >> second = first >>= λ done. second

-- `assert!`.
abbrev pub assert : Bool → Outcome (Unit {0})
assert true = ok tt
assert false = panic

-- `if !test { Err(e)? }`.
abbrev pub require : Bool → ErrorKind → Outcome (Unit {0})
require true e = ok tt
require false e = err e

-- `expect`, and an index into a vector.
abbrev pub expect {ℓ} : {A : Type ℓ} → Option A → Outcome A
expect none = panic
expect (some a) = ok a

-- A value at the end comes from a value of the first part.
pub >>=-eq-ok {ℓ κ} :
    {A : Type ℓ} {B : Type κ} (first : Outcome A) (next : A → Outcome B) {end : B}
    → (first >>= next) ≡ ok end
    → (mid : A) × (first ≡ ok mid) × (next mid ≡ ok end)
>>=-eq-ok panic next reached = cc
>>=-eq-ok (err kind) next reached = cc
>>=-eq-ok (ok mid) next reached = (mid, refl, reached)
