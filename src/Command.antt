-- ===== src/Command.antt =====
-- src/command.rs: reading and writing the registers of chips by commands. `InnerContext` sends and
-- receives through an interface, `CommandIo`; the lock of `Context` makes each of its operations one
-- step, so they are those of `InnerContext`.
pub mod Reading
pub mod Writing
pub mod Interface
pub mod OverFifo
mod Tests
use kasop.Common.{
  ℕ, zero, suc, Bool, true, false, not, List, [], ◌∷◌, ◌++◌, Option, none, some, length, Outcome,
  ok, err, panic, ErrorKind, assert, require, ◌==◌, if◌then◌else◌, ◌>>=◌ as andThen,
}
use kasop.Common.Actions.{Action, ◌>>=◌, ◌>>◌, return, lift}
use kasop.Bm1387.Address.{ChipAddress, is_broadcast}
use kasop.Bm1387.Commands.{get_status_cmd, set_config_cmd, CmdResponse, unpack_response}
use kasop.Bm1387.Registers.{Register}

-- `io::CommandRxTx`, as this module calls it.
pub record CommandIo (S : Type 0) : Type 0 where
  pub send_command : List ℕ → Bool → Action S (Unit {0})
  pub recv_response : ℕ → Action S (Option (List ℕ))

-- In microseconds.
abbrev pub command_read_timeout : ℕ
command_read_timeout = 100_000

abbrev pub command_flush_timeout : ℕ
command_flush_timeout = 5

pub record InnerContext (S : Type 0) : Type 0 where
  pub command_io : S
  pub chip_count : Option ℕ

unfoldable pub new : {S : Type 0} → S → InnerContext S
new command_io = record { command_io = command_io; chip_count = none }

unfoldable pub set_chip_count : {S : Type 0} → ℕ → Action (InnerContext S) (Unit {0})
set_chip_count chip_count c = (record c { chip_count = some chip_count }, ok tt)

module _ {S A : Type 0} where
  abbrev pub keep : InnerContext S → S × Outcome A → InnerContext S × Outcome A
  keep c (s, o) = (record c { command_io = s }, o)

  -- An operation on the fifos.
  abbrev pub with_io : Action S A → Action (InnerContext S) A
  with_io act c = keep c (act c.command_io)

-- `map(T::from_reg)`.
unfoldable pub from_regs : {T : Type 0} → Register T → List ℕ → Outcome (List T)
from_regs reg [] = ok []
from_regs reg (x ∷ xs) =
    andThen (reg.from_reg x) (λ r. andThen (from_regs reg xs) (λ rs. ok (r ∷ rs)))

-- The check of the number of responses: for a broadcast there is one only if the count is known.
unfoldable pub check_count : ChipAddress → Option ℕ → ℕ → Outcome (Unit {0})
check_count ChipAddress.all none n = ok tt
check_count ChipAddress.all (some chip_count) n = require (chip_count == n) ErrorKind.hashchip
check_count (ChipAddress.one x) chip_count n = require (n == 1) ErrorKind.hashchip

module _ {S : Type 0} (io : CommandIo S) where
  -- The loop over the responses, with those that are collected. It ends when no more come, or with
  -- the first for a single chip. The fuel bounds the number of rounds; a longer reception is not
  -- followed to its end.
  unfoldable pub collect : ℕ → ChipAddress → List ℕ → Action S (List ℕ)
  collect zero chip_address responses = lift panic
  collect (suc fuel) chip_address responses = io.recv_response command_read_timeout >>= λ o.
      elim o [
        | none ↦ return responses
        | some one_response ↦ lift (unpack_response one_response) >>= λ r.
            let more = collect fuel chip_address (responses ++ r.value ∷ []) in
            if is_broadcast chip_address then more else return (responses ++ r.value ∷ [])
      ]

  -- `InnerContext::read_register`.
  unfoldable pub read_register :
      {T : Type 0} → ℕ → Register T → ChipAddress → Action (InnerContext S) (List T)
  read_register fuel reg chip_address c =
      (do
        cmd ← lift (get_status_cmd chip_address reg.reg_num)
        with_io (io.send_command cmd false)
        responses ← with_io (collect fuel chip_address [])
        lift (check_count chip_address c.chip_count (length responses))
        lift (from_regs reg responses))
        c

  unfoldable pub flush_command_rx : ℕ → Action S (Unit {0})
  flush_command_rx zero = lift panic
  flush_command_rx (suc fuel) = io.recv_response command_flush_timeout >>= λ o. elim o [
    | none ↦ return tt
    | some garbage ↦ flush_command_rx fuel
  ]

  -- `InnerContext::write_register`.
  unfoldable pub write_register :
      {T : Type 0} → ℕ → Register T → ChipAddress → T → Action (InnerContext S) (Unit {0})
  write_register fuel reg chip_address value = do
    cmd ← lift (set_config_cmd chip_address reg.reg_num (reg.to_reg value))
    with_io (io.send_command cmd true)
    with_io (flush_command_rx fuel)

  unfoldable pub send_raw_command : List ℕ → Bool → Action (InnerContext S) (Unit {0})
  send_raw_command cmd wait = with_io (io.send_command cmd wait)
