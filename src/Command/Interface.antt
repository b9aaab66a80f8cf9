-- ===== src/Command/Interface.antt =====
-- The trait `Interface` of src/command.rs, its methods that are built on two others, and a context as
-- an implementation of it.
use kasop.Common.{
  ℕ, true, not, List, [], ◌∷◌, get_elem?, All, Outcome, ok, err, ErrorKind, assert, expect,
  if◌then◌else◌, ◌≡◌, ap, ◌>>◌ as andThen, ◌∙◌, Bool-cases, inl, inr,
}
use kasop.Common.Actions.{Action, ◌>>=◌, ◌>>◌, lift, continue-ok}
use kasop.Bm1387.Address.{ChipAddress, is_broadcast}
use kasop.Bm1387.Registers.{Register}
use kasop.Command.{CommandIo, InnerContext}
use kasop.Command

-- `Interface`.
pub record CommandInterface (S : Type 0) : Type 1 where
  pub read_register : {T : Type 0} → Register T → ChipAddress → Action S (List T)
  pub write_register : {T : Type 0} → Register T → ChipAddress → T → Action S (Unit {0})

-- `Interface` for a context over the fifos.
abbrev pub context_interface : {S : Type 0} → CommandIo S → ℕ → CommandInterface (InnerContext S)
context_interface io fuel = record {
  read_register = Command.read_register io fuel;
  write_register = Command.write_register io fuel;
}

-- The loop that compares.
unfoldable pub all_same : {T : Type 0} → Register T → T → List T → Outcome (Unit {0})
all_same reg value [] = ok tt
all_same reg value (r ∷ rs) =
    andThen (if reg.same r value then ok tt else err ErrorKind.hashchip) (all_same reg value rs)

module _ {S T : Type 0} (i : CommandInterface S) (reg : Register T) where
  unfoldable pub read_one_register : ChipAddress → Action S T
  read_one_register chip_address = do
    lift (assert (not (is_broadcast chip_address)))
    responses ← i.read_register reg chip_address
    lift (expect (get_elem? responses 0))

  unfoldable pub write_register_readback : ChipAddress → T → Action S (Unit {0})
  write_register_readback chip_address value = do
    i.write_register reg chip_address value
    responses ← i.read_register reg chip_address
    lift (all_same reg value responses)

all_same-All :
    {T : Type 0} (reg : Register T) (value : T) (rs : List T)
    → all_same reg value rs ≡ ok tt
    → All (λ r. reg.same r value ≡ true) rs
unfolding all_same
all_same-All reg value [] h = tt
all_same-All reg value (r ∷ rs) h = elim (Bool-cases (reg.same r value)) [
  | inl same ↦ (same, all_same-All reg value rs (rw same at h))
  | inr other ↦
      let e : ◌≡◌ {A = Outcome (Unit {0})} (err ErrorKind.hashchip) (ok tt) = rw other at h in
      absurd (cc)
]

module _ {S T : Type 0} (i : CommandInterface S) (reg : Register T) where
  -- On every interface: writing a register with read-back succeeds only if every chip that answers
  -- to the read behind the write gives the value that was written.
  pub write_register_readback-All :
      (chip_address : ChipAddress) (value : T) (s t : S)
      → write_register_readback i reg chip_address value s ≡ (t, ok tt)
      → (w : S) × (rs : List T) × (i.write_register reg chip_address value s ≡ (w, ok tt))
        × (i.read_register reg chip_address w ≡ (t, ok rs))
        × All (λ r. reg.same r value ≡ true) rs
  unfolding write_register_readback
  write_register_readback-All chip_address value s t h =
      let compare_all : List T → Action S (Unit {0}) =
        λ responses. lift (all_same reg value responses) in
      let (w, _, wrote, rest) =
        continue-ok (i.write_register reg chip_address value s)
          (λ done. i.read_register reg chip_address >>= compare_all) h in
      let (u, rs, got, same) = continue-ok (i.read_register reg chip_address w) compare_all rest in
      (
        w,
        rs,
        wrote,
        got ∙ ap (λ v. (v, ok rs)) (λ j. (same j).0),
        all_same-All reg value rs (λ j. (same j).1),
      )
