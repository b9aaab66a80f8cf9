-- ===== src/Stratum/Mining.antt =====
-- src/client/stratum.rs with src/miner.rs and src/pow.rs: from a job of the pool to its shares.
use kasop.Common.{
  ℕ, suc, ◌*◌, ◌/◌, ◌^◌, ◌≤◌, ◌<◌, true, List, ◌∷◌, map, length, All, Option, some, none, ok, ◌≡◌,
  ap, ◌∙◌, arith,
}
use mathlib.Core.List.{Memᴰ}
use kasop.Common.Int.{ℤ}
use kasop.Target.{Uint256}
use kasop.Pow.{BlockSeed, RpcBlocks, PowState, new_state, check_pow}
use kasop.Pow.HeavyHash.{Matrix}
use kasop.Pow.Check.{new_state-partial}
use kasop.Miner.{WorkerCommand, Next, Answers, cpu_rounds}
use kasop.Miner.Searching.{IsQuiet, solution, on_job}
use kasop.Miner.Found.{idle, given, cpu_rounds-finds}
use kasop.Miner.Manager.{MinerManager}
use kasop.Miner.Jobs.{process_block-made}
use kasop.Stratum.{Text, MiningNotify, StratumCommand, StratumLine, StratumHandler}
use kasop.Stratum.Settings.{set_extranonce}
use kasop.Stratum.Settings.Extranonce.{hex_char, number_from, set_extranonce_lem}
use kasop.Stratum.Handler.{partial_block_of, handle_message}

-- The handler after an extranonce.
abbrev pub with_extranonce : List ℕ → ℕ → StratumHandler → StratumHandler
with_extranonce ds size h = (set_extranonce (map hex_char ds) size h).handler

-- The line of a job.
abbrev pub notify : {F : Type 0} → Option ℕ → Text → Uint256 → ℕ → StratumLine F
notify id job hash time =
    StratumLine.stratum_command
      (StratumCommand.mining_notify (MiningNotify.mining_notify_short id (job, hash, time) none))

module _ {B F : Type 0} (recip_decode : F → ℕ × ℤ) (blocks : RpcBlocks B)
    (generate : Uint256 → Option Matrix) (f1600 : List ℕ → List ℕ) (print : Uint256 → Text) where
  -- A pool gives an extranonce of hexadecimal digits, which leaves `size` bytes, at most 7, of the
  -- nonce and fits above them, and then a job, of which the miner can make a state while a worker
  -- is left. Then the handler's result is a value and the channel of the workers has this state.
  -- A worker that had none and takes it, and hears of no other command for a round for each value
  -- of these bytes, has sent the block of the job with every nonce that starts with the extranonce
  -- and passes `check_pow`.
  pub handle_message-cpu_rounds :
      (d : ℕ) (ds : List ℕ) (size : ℕ) (h : StratumHandler) (m : MinerManager B Text)
      (id : Option ℕ) (job : Text) (hash : Uint256) (time : ℕ) (s : PowState B Text)
      → All (λ x. x < 16) (d ∷ ds)
      → size ≤ 7
      → number_from 0 (d ∷ ds) * 2 ^ (size * 8) < 2 ^ 64
      → new_state blocks generate m.current_state_id (
          BlockSeed.partial_block
            (partial_block_of job hash time (with_extranonce (d ∷ ds) size h)))
        ≡ ok s
      → 0 < m.block_channel.receivers_count
      → (inputs : List (Answers B Text)) → All IsQuiet inputs
      → 2 ^ (size * 8) ≤ suc (length inputs)
      → (n mask fixed good : ℕ) → good / 2 ^ (size * 8) ≡ number_from 0 (d ∷ ds)
      → check_pow f1600 s good ≡ true
      → ((handle_message {F = F} recip_decode blocks generate
            (notify id job hash time)
            (with_extranonce (d ∷ ds) size h)
            m).result
          ≡ ok tt)
        × ((handle_message {F = F} recip_decode blocks generate
              (notify id job hash time)
              (with_extranonce (d ∷ ds) size h)
              m).miner.block_channel.value
            ≡ some (WorkerCommand.job s))
        × (sent : List (BlockSeed B Text)) × (end : ℕ) × (cpu_rounds f1600 blocks print
              (given s ∷ inputs)
              (idle n mask fixed)
            ≡ ok (sent, Next.goes_on (on_job s (number_from 0 (d ∷ ds)) (size * 8) end)))
        × Memᴰ
            (solution f1600 print s
              (partial_block_of job hash time (with_extranonce (d ∷ ds) size h))
              good)
            sent
  unfolding handle_message
  handle_message-cpu_rounds d ds size h m id job hash time s digits few fits made workers inputs
        quiet enough n mask fixed good ours passes =
      let settings = set_extranonce_lem d ds size h digits few fits in
      let p = partial_block_of job hash time (with_extranonce (d ∷ ds) size h) in
      let (block, e_mask, e_fixed) =
        new_state-partial blocks generate m.current_state_id p s made in
      let (result, value) =
        process_block-made blocks generate (BlockSeed.partial_block p) m s made workers in
      let found =
        cpu_rounds-finds f1600 blocks print s (number_from 0 (d ∷ ds)) (size * 8) p block
          (omega arith) (e_mask ∙ ap (λ r. r.handler.nonce_mask) settings)
          (e_fixed ∙ ap (λ r. r.handler.nonce_fixed) settings) inputs quiet enough n mask fixed good
          ours passes in
      let (sent, end, e, has) = found in (result, value, sent, end, e, has)
