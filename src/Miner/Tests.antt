-- ===== src/Miner/Tests.antt =====
-- Tests of the workers and their manager, and the theorems at concrete inputs.
use kasop.Common.{
  ℕ, ◌-◌, ◌/◌, ◌^◌, bit_and, bit_xor, true, false, List, [], ◌∷◌, All, get_or, replicate, Option,
  some, none, ok, ◌≡◌, ◌⊎◌, refl, arith,
}
use kasop.Target.{
  Uint256, cmp, iter_cmp, from_le_bytes, from_chunks, word_from_le_bytes, to_le_bytes,
  word_to_le_bytes,
}
use kasop.Pow.{
  BlockSeed, PartialBlock, RpcBlocks, PowState, pow_initial_state, check_pow, calculate_pow,
  generate_block_if_pow, heavy_hash, heavy_hasher, finalize_with_nonce, new_state,
}
use kasop.Pow.HeavyHash.{Matrix, heavy_product, half_bytes, product, sum_row, combine, xor_zip}
use kasop.Watch.{Result, increment}
use kasop.Miner.{WorkerCommand, Next, Answers, look_for_change, cpu_rounds}
use kasop.Miner.Searching.{solutions, on_job, cpu_rounds_lem}
use kasop.Miner.Gpu.{GpuAnswers, gpu_round, waited_state}
use kasop.Miner.Submitted.{IsSolved, gpu_round-IsSolved}
use kasop.Miner.Stale.{IsWith, look_for_change-keeps}
use kasop.Miner.Manager.{MinerManager, process_block}
use kasop.Miner.Jobs.{Handed, process_block-Handed, Paused, process_block-none}

-- In place of the permutation: two bits that depend on the nonce, in every word.
abbrev two_bits : List ℕ → List ℕ
two_bits ws = replicate 25 (bit_and (bit_xor (get_or ws 0 0) (get_or ws 9 0)) 3)

abbrev target : Uint256
target = (2 ^ 64 - 1) ∷ (2 ^ 64 - 1) ∷ (2 ^ 64 - 1) ∷ 0 ∷ []

abbrev no_rows : Matrix
no_rows = replicate 64 []

abbrev part : PartialBlock ℕ
part = record {
  id = 7;
  header_hash = 1 ∷ 2 ∷ 3 ∷ 4 ∷ [];
  timestamp = 5435345234;
  nonce = 0;
  target = target;
  nonce_mask = 3;
  nonce_fixed = 20;
  hash = none;
}

abbrev pool_state : PowState ℕ ℕ
pool_state = record {
  id = 1;
  matrix = no_rows;
  target = target;
  pow_hash_header = [];
  block = BlockSeed.partial_block part;
  hasher = pow_initial_state;
  nonce_mask = 3;
  nonce_fixed = 20;
}

abbrev nonce_blocks : RpcBlocks ℕ
nonce_blocks = record {
  has_header = λ b. true;
  bits = λ b. 0x1d00ffff;
  timestamp = λ b. 5435345234;
  pre_pow_hash = λ b. ok (1 ∷ 2 ∷ 3 ∷ 4 ∷ []);
  with_nonce = λ nonce b. nonce;
}

abbrev short_text : Uint256 → ℕ
short_text ws = 9

abbrev quiet_round : Answers ℕ ℕ
quiet_round = record { waited = Result.closed; changed = Result.done none }

abbrev three_rounds : List (Answers ℕ ℕ)
three_rounds = quiet_round ∷ quiet_round ∷ quiet_round ∷ []

-- One nonce of four passes.
only_20 :
    (check_pow two_bits pool_state 20 ≡ true)
    × (check_pow two_bits pool_state 21 ≡ false)
    × (check_pow two_bits pool_state 22 ≡ false)
    × (check_pow two_bits pool_state 23 ≡ false)
unfolding check_pow calculate_pow heavy_hash heavy_hasher finalize_with_nonce cmp iter_cmp
    from_le_bytes from_chunks word_from_le_bytes to_le_bytes word_to_le_bytes heavy_product
    half_bytes product sum_row combine xor_zip
only_20 = (refl, refl, refl, refl)

cpu_rounds_example :
    (end : ℕ) × (cpu_rounds two_bits nonce_blocks short_text three_rounds (on_job pool_state 5 2 22)
      ≡ ok (
        solutions two_bits short_text pool_state part (22 ∷ 23 ∷ 20 ∷ []),
        Next.goes_on (on_job pool_state 5 2 end),
      ))
cpu_rounds_example =
    cpu_rounds_lem two_bits nonce_blocks short_text pool_state part refl 5 2 (omega arith)
      three_rounds (refl, (refl, (refl, tt))) 22

-- A plugin without a filter, which gives the nonce 20.
abbrev plugin_answers : GpuAnswers ℕ ℕ
plugin_answers = record {
  waited = Result.closed;
  output = ok (20 ∷ []);
  changed = Result.done none;
}

abbrev block_20 : BlockSeed ℕ ℕ
block_20 = BlockSeed.partial_block (record part { nonce = 20; hash = some 9 })

gpu_round_sends :
    gpu_round two_bits nonce_blocks short_text 1024 plugin_answers false (some pool_state)
    ≡ ok (record {
      submitted = some block_20;
      hashes_tried = 1024;
      next = Next.goes_on (some pool_state);
    })
unfolding gpu_round generate_block_if_pow
gpu_round_sends = rw only_20.0 refl

gpu_round-IsSolved_example :
    (s : PowState ℕ ℕ) × (waited_state plugin_answers (some pool_state) ≡ Next.goes_on (some s))
    × (nonce : ℕ) × IsSolved two_bits nonce_blocks short_text s block_20 nonce
gpu_round-IsSolved_example =
    gpu_round-IsSolved two_bits nonce_blocks short_text 1024 plugin_answers false (some pool_state)
      (record {
        submitted = some block_20;
        hashes_tried = 1024;
        next = Next.goes_on (some pool_state);
      })
      block_20 gpu_round_sends refl

-- A job with the fixed part 24.
abbrev next_state : PowState ℕ ℕ
next_state = record pool_state { id = 2; nonce_fixed = 24 }

look_for_change-keeps_example :
    (look_for_change
        (Result.done (some (some (WorkerCommand.job next_state))))
        (on_job pool_state 5 2 0)
      ≡ Next.goes_on (on_job next_state 5 2 0))
    × (sent : List (BlockSeed ℕ ℕ)) × (end : ℕ) × (cpu_rounds two_bits nonce_blocks short_text
          three_rounds
          (on_job next_state 5 2 0)
        ≡ ok (sent, Next.goes_on (on_job next_state 5 2 end)))
    × All (IsWith two_bits short_text next_state part (λ nonce. nonce / 2 ^ 2 ≡ 5)) sent
look_for_change-keeps_example =
    look_for_change-keeps two_bits nonce_blocks short_text pool_state next_state 5 2 part refl
      (omega arith) 0 refl three_rounds (refl, (refl, (refl, tt)))

abbrev find : Uint256 → Option Matrix
find hash = some no_rows

abbrev miner_manager : MinerManager ℕ ℕ
miner_manager = record {
  block_channel = record { value = none; id = 1; receivers_count = 2; sender_alive = true };
  is_synced = true;
  current_state_id = 0;
}

process_block_example :
    ((process_block nonce_blocks find
        (some (BlockSeed.partial_block part))
        miner_manager).manager.is_synced
      ≡ true)
    × ((process_block nonce_blocks find
          (some (BlockSeed.partial_block part))
          miner_manager).manager.current_state_id
        ≡ increment 0)
    × Handed
        (new_state nonce_blocks find 0 (BlockSeed.partial_block part))
        miner_manager
        (process_block nonce_blocks find (some (BlockSeed.partial_block part)) miner_manager)
process_block_example =
    process_block-Handed nonce_blocks find (BlockSeed.partial_block part) miner_manager

process_block-none_example :
    ((true ≡ false)
      × (process_block nonce_blocks find none miner_manager
          ≡ record { manager = miner_manager; result = ok tt }))
    ⊎ ((true ≡ true)
        × Paused miner_manager (process_block nonce_blocks find none miner_manager)
        × (process_block nonce_blocks find none
              (process_block nonce_blocks find none miner_manager).manager
            ≡ record {
              manager = (process_block nonce_blocks find none miner_manager).manager;
              result = ok tt;
            }))
process_block-none_example = process_block-none nonce_blocks find miner_manager
