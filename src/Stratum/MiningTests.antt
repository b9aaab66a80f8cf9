-- ===== src/Stratum/MiningTests.antt =====
-- A job of a pool and its shares at concrete inputs.
use kasop.Common.{
  ℕ, zero, suc, true, List, [], ◌∷◌, ◌++◌, All, replicate, some, none, ok, ◌≡◌, refl, arith,
}
use mathlib.Core.List.{Memᴰ}
use kasop.Target.{Uint256, to_le_bytes, word_to_le_bytes}
use kasop.Target.{cmp, iter_cmp}
use kasop.Pow.{
  BlockSeed, PowState, pow_hasher, new_state, check_pow, calculate_pow, heavy_hash, heavy_hasher,
  finalize_with_nonce,
}
use kasop.Watch.{Result}
use kasop.Miner.{WorkerCommand, Next, Answers, cpu_rounds}
use kasop.Miner.Searching.{IsQuiet, solution, on_job}
use kasop.Miner.Found.{idle, given}
use kasop.Stratum.{Text}
use kasop.Stratum.Settings.{set_extranonce, from_str_radix, read_digits, to_digit}
use kasop.Stratum.Handler.{partial_block_of, handle_message}
use kasop.Stratum.Mining.{with_extranonce, notify, handle_message-cpu_rounds}
use kasop.Stratum.Samples.{job_7, handler, recip_power, no_blocks, no_rows, find, miner, hash}

abbrev short_text : Uint256 → Text
short_text ws = []

-- In place of the permutation: no bits.
abbrev no_bits : List ℕ → List ℕ
no_bits ws = replicate 25 0

-- The state of a job with the extranonce "ab" and one byte for the miner.
abbrev state : PowState (Unit {0}) Text
state = record {
  id = 0;
  matrix = no_rows;
  target = handler.target_pool;
  pow_hash_header = to_le_bytes hash ++ word_to_le_bytes 8 100 ++ replicate 32 0;
  block =
      BlockSeed.partial_block
        (partial_block_of job_7 hash 100 (with_extranonce (10 ∷ 11 ∷ []) 1 handler));
  hasher = pow_hasher hash 100;
  nonce_mask = (with_extranonce (10 ∷ 11 ∷ []) 1 handler).nonce_mask;
  nonce_fixed = (with_extranonce (10 ∷ 11 ∷ []) 1 handler).nonce_fixed;
}

state_made :
    new_state no_blocks find 0 (
      BlockSeed.partial_block
        (partial_block_of job_7 hash 100 (with_extranonce (10 ∷ 11 ∷ []) 1 handler)))
    ≡ ok state
unfolding new_state set_extranonce from_str_radix read_digits to_digit
state_made = refl

passes : check_pow no_bits state 43781 ≡ true
unfolding check_pow calculate_pow heavy_hash heavy_hasher finalize_with_nonce cmp iter_cmp
    set_extranonce
passes = refl

abbrev quiet_round : Answers (Unit {0}) Text
quiet_round = record { waited = Result.closed; changed = Result.done none }

all-IsQuiet : (n : ℕ) → All IsQuiet (replicate n quiet_round)
all-IsQuiet zero = tt
all-IsQuiet (suc n) = (refl, all-IsQuiet n)

handle_message-cpu_rounds_example :
    ((handle_message {F = ℕ} recip_power no_blocks find
        (notify none job_7 hash 100)
        (with_extranonce (10 ∷ 11 ∷ []) 1 handler)
        miner).result
      ≡ ok tt)
    × ((handle_message {F = ℕ} recip_power no_blocks find
          (notify none job_7 hash 100)
          (with_extranonce (10 ∷ 11 ∷ []) 1 handler)
          miner).miner.block_channel.value
        ≡ some (WorkerCommand.job state))
    × (sent : List (BlockSeed (Unit {0}) Text)) × (end : ℕ) × (cpu_rounds no_bits no_blocks
          short_text
          (given state ∷ replicate 255 quiet_round)
          (idle 99 0 0)
        ≡ ok (sent, Next.goes_on (on_job state 171 8 end)))
    × Memᴰ
        (solution no_bits short_text state
          (partial_block_of job_7 hash 100 (with_extranonce (10 ∷ 11 ∷ []) 1 handler))
          43781)
        sent
handle_message-cpu_rounds_example =
    handle_message-cpu_rounds recip_power no_blocks find no_bits short_text 10 (11 ∷ []) 1 handler
      miner none job_7 hash 100 state (omega arith, (omega arith, tt)) (omega arith) (omega arith)
      state_made (omega arith) (replicate 255 quiet_round) (all-IsQuiet 255) (omega arith) 99 0 0
      43781 refl passes
