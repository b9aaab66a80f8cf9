-- ===== src/Command/Reading.antt =====
-- What reading registers gives, by the responses that come.
use kasop.Common.{
  ℕ, zero, suc, ◌+◌, ◌*◌, ◌<◌, ◌^◌, false, List, [], ◌∷◌, ◌++◌, map, length, Option, none, some,
  Outcome, ok, err, panic, ErrorKind, ◌==◌, if◌then◌else◌, ◌≡◌, inl, inr, refl, sym, ap, ◌∙◌, arith,
  Bool-cases, ◌>>=◌ as andThen,
}
use mathlib.Core.List.{append_assoc, append-nil}
use kasop.Common.Actions.{Action, continue}
use kasop.Common.Done.{Done, Done-ok, Done-continue, Done-weaken, Done-total}
use kasop.Bm1387.Address.{ChipAddress, is_broadcast}
use kasop.Bm1387.Commands.{unpack_response, get_status_cmd}
use kasop.Bm1387.Registers.{Register}
use kasop.Command.{
  CommandIo, InnerContext, keep, collect, from_regs, check_count, read_register,
  command_read_timeout,
}

-- A response of four bytes of a value, and two more.
pub record Response : Type 0 where
  pub b3 : ℕ
  pub b2 : ℕ
  pub b1 : ℕ
  pub b0 : ℕ
  pub chip_address : ℕ
  pub register : ℕ

abbrev pub bytes_of : Response → List ℕ
bytes_of r = r.b3 ∷ r.b2 ∷ r.b1 ∷ r.b0 ∷ r.chip_address ∷ r.register ∷ []

abbrev pub value_of : Response → ℕ
value_of r = ((r.b3 * 2 ^ 8 + r.b2) * 2 ^ 8 + r.b1) * 2 ^ 8 + r.b0

abbrev pub head? : List Response → Option (List ℕ)
head? [] = none
head? (r ∷ rs) = some (bytes_of r)

abbrev pub tail : List Response → List Response
tail [] = []
tail (r ∷ rs) = rs

-- What the interface does that a context uses: `Waits s rs` says that the responses `rs` wait, and
-- they are given in their order, none of them where none is left.
pub record GivesResponses {S : Type 0} (io : CommandIo S) (May : Type 0)
    (Waits : S → List Response → Type 0) : Type 0 where
  pub receives :
      (s : S) (rs : List Response) (timeout : ℕ)
      → Waits s rs
      → Done May (io.recv_response timeout s) (λ t o. Waits t (tail rs) × (o ≡ head? rs))

-- The answer to a read, by the values of the responses: as many as there are chips, if their number
-- is known, or any number, if all chips are asked; else the first.
abbrev pub answer : ChipAddress → Option ℕ → List ℕ → Outcome (List ℕ)
answer ChipAddress.all none vs = ok vs
answer ChipAddress.all (some n) vs = if n == length vs then ok vs else err ErrorKind.hashchip
answer (ChipAddress.one x) n [] = err ErrorKind.hashchip
answer (ChipAddress.one x) n (v ∷ vs) = ok (v ∷ [])

-- The responses that are left.
abbrev pub left : ChipAddress → List Response → List Response
left ChipAddress.all rs = []
left (ChipAddress.one x) rs = tail rs

abbrev pub read_values : ChipAddress → List Response → List ℕ
read_values ChipAddress.all rs = map value_of rs
read_values (ChipAddress.one x) [] = []
read_values (ChipAddress.one x) (r ∷ rs) = value_of r ∷ []

module _ {S : Type 0} (io : CommandIo S) (May : Type 0) (Waits : S → List Response → Type 0)
    (gives : GivesResponses io May Waits) where
  collect-all :
      (fuel : ℕ) (rs : List Response) (acc : List ℕ) (s : S)
      → length rs < fuel
      → Waits s rs
      → Done May
          (collect io fuel ChipAddress.all acc s)
          (λ t vs. Waits t [] × (vs ≡ acc ++ map value_of rs))
  unfolding collect unpack_response is_broadcast
  collect-all zero rs acc s lt h = absurd (omega arith)
  collect-all (suc fuel) [] acc s lt h =
      Done-continue (gives.receives s [] command_read_timeout h)
        (λ t o p. rw p.1 (Done-ok (p.0, sym (append-nil acc))))
  collect-all (suc fuel) (r ∷ rs) acc s lt h =
      Done-continue (gives.receives s (r ∷ rs) command_read_timeout h) (λ t o p. rw p.1 (
        Done-weaken (collect-all fuel rs (acc ++ value_of r ∷ []) t (omega arith) p.0)
          (λ u vs q. (q.0, q.1 ∙ append_assoc acc (value_of r ∷ []) (map value_of rs)))))

  collect-one :
      (fuel x : ℕ) (rs : List Response) (s : S)
      → Waits s rs
      → Done May
          (collect io (suc fuel) (ChipAddress.one x) [] s)
          (λ t vs. Waits t (tail rs) × (vs ≡ read_values (ChipAddress.one x) rs))
  unfolding collect unpack_response is_broadcast
  collect-one fuel x [] s h =
      Done-continue (gives.receives s [] command_read_timeout h)
        (λ t o p. rw p.1 (Done-ok (p.0, refl)))
  collect-one fuel x (r ∷ rs) s h =
      Done-continue (gives.receives s (r ∷ rs) command_read_timeout h)
        (λ t o p. rw p.1 (Done-ok (p.0, refl)))

  collect-Done :
      (fuel : ℕ) (a : ChipAddress) (rs : List Response) (s : S)
      → length rs < fuel
      → Waits s rs
      → Done May (collect io fuel a [] s) (λ t vs. Waits t (left a rs) × (vs ≡ read_values a rs))
  collect-Done fuel ChipAddress.all rs s lt h = collect-all fuel rs [] s lt h
  collect-Done zero (ChipAddress.one x) rs s lt h = absurd (omega arith)
  collect-Done (suc fuel) (ChipAddress.one x) rs s lt h = collect-one fuel x rs s h

-- The check of the number, and the answer.
checked :
    {T : Type 0} (reg : Register T) (a : ChipAddress) (n : Option ℕ) (rs : List Response)
    → andThen (check_count a n (length (read_values a rs))) (λ _. from_regs reg (read_values a rs))
      ≡ andThen (answer a n (map value_of rs)) (from_regs reg)
unfolding check_count
checked reg ChipAddress.all none rs = refl
checked reg ChipAddress.all (some n) rs = elim (Bool-cases (n == length (map value_of rs))) [
  | inl same ↦ rw same refl
  | inr other ↦ rw other refl
]
checked reg (ChipAddress.one x) n [] = refl
checked reg (ChipAddress.one x) n (r ∷ rs) = refl

with_keep :
    {S A C : Type 0} (c : InnerContext S) (r : S × Outcome A) (next : A → Action (InnerContext S) C)
    {t : S} {a : A}
    → r ≡ (t, ok a)
    → continue (keep c r) next ≡ next a (record c { command_io = t })
with_keep c r next e = rw e refl

lifted :
    {S T : Type 0} (c : InnerContext S) (o : Outcome (Unit {0})) (p : Outcome T)
    → continue {S = InnerContext S} (c, o) (λ _ d. (d, p)) ≡ (c, andThen o (λ _. p))
lifted c (ok done) p = refl
lifted c (err kind) p = refl
lifted c panic p = refl

module _ {S : Type 0} (io : CommandIo S) (Waits : S → List Response → Type 0)
    (gives : GivesResponses io ⊥ Waits) {T : Type 0} (reg : Register T) (a : ChipAddress)
    (cmd : List ℕ) (known : get_status_cmd a reg.reg_num ≡ ok cmd) where
  -- Reading a register over an interface that does not fail, when the responses to the command are
  -- `rs`: with fuel for all of them the read ends with their answer, as registers; all responses to a
  -- broadcast are used up, and one response to a single chip.
  pub read_register-answer :
      (fuel : ℕ) (rs : List Response) (c : InnerContext S)
      → length rs < fuel
      → Done ⊥ (io.send_command cmd false c.command_io) (λ t _. Waits t rs)
      → (d : InnerContext S) × (read_register io fuel reg a c
          ≡ (d, andThen (answer a c.chip_count (map value_of rs)) (from_regs reg)))
        × (d.chip_count ≡ c.chip_count)
        × Waits d.command_io (left a rs)
  unfolding read_register
  read_register-answer fuel rs c lt sent =
      let (t, _, sends, waits) = Done-total sent in
      let (u, vs, collects, (rest, values)) =
        Done-total (collect-Done io ⊥ Waits gives fuel a rs t lt waits) in
      let d : InnerContext S = record c { command_io = u } in
      (
        d,
        rw (known, sends, collects, values)
            (lifted d (check_count a c.chip_count (length (read_values a rs)))
                (from_regs reg (read_values a rs))
              ∙ ap (λ o. (d, o)) (checked reg a c.chip_count rs)),
        refl,
        rest,
      )
