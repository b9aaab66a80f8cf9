-- ===== src/Command/Writing.antt =====
-- Writing a register leaves no response behind.
use kasop.Common.{ℕ, zero, suc, ◌<◌, List, [], ◌∷◌, length, ok, ◌≡◌, refl, arith, true}
use kasop.Common.Done.{Done, Done-ok, Done-continue, Done-total}
use kasop.Bm1387.Address.{ChipAddress}
use kasop.Bm1387.Commands.{set_config_cmd}
use kasop.Bm1387.Registers.{Register}
use kasop.Command.{CommandIo, InnerContext, flush_command_rx, write_register, command_flush_timeout}
use kasop.Command.Reading.{Response, GivesResponses}

module _ {S : Type 0} (io : CommandIo S) (May : Type 0) (Waits : S → List Response → Type 0)
    (gives : GivesResponses io May Waits) where
  flush_command_rx-Done :
      (fuel : ℕ) (rs : List Response) (s : S)
      → length rs < fuel
      → Waits s rs
      → Done May (flush_command_rx io fuel s) (λ t _. Waits t [])
  unfolding flush_command_rx
  flush_command_rx-Done zero rs s lt h = absurd (omega arith)
  flush_command_rx-Done (suc fuel) [] s lt h =
      Done-continue (gives.receives s [] command_flush_timeout h) (λ t o p. rw p.1 (Done-ok p.0))
  flush_command_rx-Done (suc fuel) (r ∷ rs) s lt h =
      Done-continue (gives.receives s (r ∷ rs) command_flush_timeout h)
        (λ t o p. rw p.1 (flush_command_rx-Done fuel rs t (omega arith) p.0))

module _ {S : Type 0} (io : CommandIo S) (Waits : S → List Response → Type 0)
    (gives : GivesResponses io ⊥ Waits) {T : Type 0} (reg : Register T) (a : ChipAddress)
    (value : T) (cmd : List ℕ)
    (known : set_config_cmd a reg.reg_num (reg.to_reg value) ≡ ok cmd) where
  -- Writing a register over an interface that does not fail ends without an error, and whatever
  -- responses came meanwhile, for which there is fuel, none of them waits any more.
  pub write_register-flushed :
      (fuel : ℕ) (rs : List Response) (c : InnerContext S)
      → length rs < fuel
      → Done ⊥ (io.send_command cmd true c.command_io) (λ t _. Waits t rs)
      → (d : InnerContext S) × (write_register io fuel reg a value c ≡ (d, ok tt))
        × (d.chip_count ≡ c.chip_count)
        × Waits d.command_io []
  unfolding write_register
  write_register-flushed fuel rs c lt sent =
      let (t, _, sends, waits) = Done-total sent in
      let (u, _, flushes, none_left) =
        Done-total (flush_command_rx-Done io ⊥ Waits gives fuel rs t lt waits) in
      (record c { command_io = u }, rw (known, sends, flushes) refl, refl, none_left)
