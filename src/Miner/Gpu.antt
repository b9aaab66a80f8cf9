-- ===== src/Miner/Gpu.antt =====
-- src/miner.rs: `launch_gpu_miner`, the rounds of a worker on a plugin. What the plugin and the
-- channel answer are arguments.
use kasop.Common.{
  ℕ, List, [], ◌∷◌, get_elem?, Bool, true, false, Option, none, some, Outcome, ok, err, panic,
  expect, ◌>>=◌, if◌then◌else◌, ◌==◌,
}
use kasop.Target.{Uint256}
use kasop.Pow.{BlockSeed, RpcBlocks, PowState, generate_block_if_pow}
use kasop.Watch.{Result}
use kasop.Miner.{WorkerCommand, Next, Round, take_waited, take_changed, after_found}

-- `output` is what `sync` and `copy_output_to` give: a `sync` that fails panics.
pub record GpuAnswers (B X : Type 0) : Type 0 where
  pub waited : Result (Option (WorkerCommand B X))
  pub output : Outcome (List ℕ)
  pub changed : Result (Option (Option (WorkerCommand B X)))

module _ {B X : Type 0} where
  abbrev pub nothing_sent : Next (Option (PowState B X)) → Round B X (Option (PowState B X))
  nothing_sent next = record { submitted = none; hashes_tried = 0; next = next }

  abbrev pub sent : ℕ → PowState B X → BlockSeed B X → Round B X (Option (PowState B X))
  sent workload s block_seed = record {
    submitted = some block_seed;
    hashes_tried = workload;
    next = Next.goes_on (after_found (some block_seed) s);
  }

  abbrev pub end_of_round : ℕ → GpuAnswers B X → PowState B X → Round B X (Option (PowState B X))
  end_of_round workload answers s = record {
    submitted = none;
    hashes_tried = workload;
    next = take_changed answers.changed (some s);
  }

  -- The round of a block that was found, or another.
  abbrev pub after_search :
      Round B X (Option (PowState B X))
      → ℕ
      → PowState B X
      → Option (BlockSeed B X)
      → Outcome (Round B X (Option (PowState B X)))
  after_search otherwise workload s none = ok otherwise
  after_search otherwise workload s (some block_seed) = ok (sent workload s block_seed)

  abbrev pub waited_state : GpuAnswers B X → Option (PowState B X) → Next (Option (PowState B X))
  waited_state answers none = take_waited answers.waited
  waited_state answers (some s) = Next.goes_on (some s)

module _ {B X : Type 0} (f1600 : List ℕ → List ℕ) (blocks : RpcBlocks B) (print : Uint256 → X) where
  -- The first of the nonces that makes a block.
  unfoldable pub first_block : PowState B X → List ℕ → Outcome (Option (BlockSeed B X))
  first_block s [] = ok none
  first_block s (nonce ∷ nonces) = generate_block_if_pow f1600 blocks s nonce print >>= λ found.
      elim found [ none ↦ first_block s nonces | some block_seed ↦ ok (some block_seed) ]

  module _ (workload : ℕ) (answers : GpuAnswers B X) where
    -- Without a filter the plugin has at most one nonce; a wrong one ends the thread.
    abbrev pub single_nonce : PowState B X → ℕ → Outcome (Round B X (Option (PowState B X)))
    single_nonce s nonce =
        if nonce == 0
        then ok (end_of_round workload answers s)
        else (generate_block_if_pow f1600 blocks s nonce print
            >>= after_search (nothing_sent (Next.stopped (ok tt))) workload s)

    abbrev pub with_output :
        Bool → PowState B X → Outcome (List ℕ) → Outcome (Round B X (Option (PowState B X)))
    with_output requires_filter s panic = panic
    with_output requires_filter s (err kind) = ok (nothing_sent (Next.stopped (err kind)))
    with_output true s (ok nonces) =
        first_block s nonces >>= after_search (end_of_round workload answers s) workload s
    with_output false s (ok nonces) = expect (get_elem? nonces 0) >>= single_nonce s

    abbrev pub gpu_after_wait :
        Bool → Next (Option (PowState B X)) → Outcome (Round B X (Option (PowState B X)))
    gpu_after_wait requires_filter (Next.stopped result) = ok (nothing_sent (Next.stopped result))
    gpu_after_wait requires_filter (Next.goes_on none) = ok (nothing_sent (Next.goes_on none))
    gpu_after_wait requires_filter (Next.goes_on (some s)) =
        with_output requires_filter s answers.output

    -- A pass of the loop.
    unfoldable pub gpu_round :
        Bool → Option (PowState B X) → Outcome (Round B X (Option (PowState B X)))
    gpu_round requires_filter state = gpu_after_wait requires_filter (waited_state answers state)
