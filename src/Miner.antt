-- ===== src/Miner.antt =====
-- src/miner.rs: the manager, which hands jobs to the workers, and the threads that search for nonces.
-- Here are the rounds of a worker on the CPU; a round is one pass of its loop.
pub mod Space
pub mod Searching
pub mod Found
mod Gpu
mod Submitted
mod Stale
pub mod Jobs
pub mod Manager
mod Tests
use kasop.Common.{
  ℕ, ◌+◌, ◌%◌, ◌^◌, bit_and, bit_or, List, [], ◌∷◌, Option, none, some, Outcome, ok, err, panic,
  ErrorKind, ◌>>=◌, if◌then◌else◌, ◌==◌,
}
use kasop.Target.{Uint256}
use kasop.Pow.{BlockSeed, RpcBlocks, PowState, generate_block_if_pow}
use kasop.Watch.{Result}

pub data WorkerCommand (B X : Type 0) : Type 0 where
  job : PowState B X → WorkerCommand B X
  close : WorkerCommand B X

-- A thread ends with a result, or goes on.
pub data Next (A : Type 0) : Type 0 where
  stopped : Outcome (Unit {0}) → Next A
  goes_on : A → Next A

-- The variables of `launch_cpu_miner`.
pub record CpuWorker (B X : Type 0) : Type 0 where
  pub nonce : ℕ
  pub mask : ℕ
  pub fixed : ℕ
  pub state : Option (PowState B X)

-- What `wait_for_change` and `get_changed` answer in a round that calls them.
pub record Answers (B X : Type 0) : Type 0 where
  pub waited : Result (Option (WorkerCommand B X))
  pub changed : Result (Option (Option (WorkerCommand B X)))

-- What a round sends to the pool, and adds to `hashes_tried`.
pub record Round (B X W : Type 0) : Type 0 where
  pub submitted : Option (BlockSeed B X)
  pub hashes_tried : ℕ
  pub next : Next W

module _ {B X : Type 0} where
  -- The state that a command sets.
  abbrev pub take_command : Option (WorkerCommand B X) → Next (Option (PowState B X))
  take_command (some (WorkerCommand.job s)) = Next.goes_on (some s)
  take_command (some WorkerCommand.close) = Next.stopped (ok tt)
  take_command none = Next.goes_on none

  -- The state after `wait_for_change`.
  abbrev pub take_waited : Result (Option (WorkerCommand B X)) → Next (Option (PowState B X))
  take_waited Result.closed = Next.stopped (ok tt)
  take_waited (Result.done command) = take_command command

  -- The state after `get_changed`.
  abbrev pub take_changed :
      Result (Option (Option (WorkerCommand B X)))
      → Option (PowState B X)
      → Next (Option (PowState B X))
  take_changed Result.closed state = Next.stopped (err ErrorKind.general)
  take_changed (Result.done none) state = Next.goes_on state
  take_changed (Result.done (some command)) state = take_command command

  -- A full block that was found ends the work on its state.
  abbrev pub after_found : Option (BlockSeed B X) → PowState B X → Option (PowState B X)
  after_found none s = some s
  after_found (some (BlockSeed.partial_block p)) s = some s
  after_found (some (BlockSeed.full_block b)) s = none

  -- A state that was waited for brings its mask and its fixed part.
  abbrev adopt : CpuWorker B X → Next (Option (PowState B X)) → Next (CpuWorker B X)
  adopt w (Next.stopped result) = Next.stopped result
  adopt w (Next.goes_on none) = Next.goes_on (record w { state = none })
  adopt w (Next.goes_on (some s)) =
      Next.goes_on (record w { mask = s.nonce_mask; fixed = s.nonce_fixed; state = some s })

  abbrev wait_without_state :
      Result (Option (WorkerCommand B X)) → CpuWorker B X → Next (CpuWorker B X)
  wait_without_state waited w = elim (w.state) [
    | none ↦ adopt w (take_waited waited)
    | some s ↦ Next.goes_on w
  ]

  abbrev with_state : CpuWorker B X → Next (Option (PowState B X)) → Next (CpuWorker B X)
  with_state w (Next.stopped result) = Next.stopped result
  with_state w (Next.goes_on state) = Next.goes_on (record w { state = state })

  -- The end of a round.
  unfoldable pub look_for_change :
      Result (Option (Option (WorkerCommand B X))) → CpuWorker B X → Next (CpuWorker B X)
  look_for_change changed w =
      if w.nonce % 128 == 0 then with_state w (take_changed changed w.state) else Next.goes_on w

  unfoldable pub next_nonce : CpuWorker B X → ℕ
  next_nonce w = bit_or (bit_and w.nonce w.mask) w.fixed

  abbrev add_submitted :
      Option (BlockSeed B X)
      → List (BlockSeed B X) × Next (CpuWorker B X)
      → List (BlockSeed B X) × Next (CpuWorker B X)
  add_submitted none rest = rest
  add_submitted (some b) rest = (b ∷ rest.0, rest.1)

module _ {B X : Type 0} (f1600 : List ℕ → List ℕ) (blocks : RpcBlocks B) (print : Uint256 → X) where
  unfoldable pub search_round :
      Result (Option (Option (WorkerCommand B X)))
      → CpuWorker B X
      → PowState B X
      → Outcome (Round B X (CpuWorker B X))
  search_round changed w s = generate_block_if_pow f1600 blocks s (next_nonce w) print >>= λ found.
      ok (record {
        submitted = found;
        hashes_tried = 1;
        next =
            look_for_change changed
              (record w { nonce = (next_nonce w + 1) % 2 ^ 64; state = after_found found s });
      })

  abbrev pub round_after_wait :
      Result (Option (Option (WorkerCommand B X)))
      → Next (CpuWorker B X)
      → Outcome (Round B X (CpuWorker B X))
  round_after_wait changed (Next.stopped result) =
      ok (record { submitted = none; hashes_tried = 0; next = Next.stopped result })
  round_after_wait changed (Next.goes_on w) = elim (w.state) [
    | none ↦ ok (record { submitted = none; hashes_tried = 0; next = Next.goes_on w })
    | some s ↦ search_round changed w s
  ]

  -- A pass of the loop of `launch_cpu_miner`.
  unfoldable pub cpu_round : Answers B X → CpuWorker B X → Outcome (Round B X (CpuWorker B X))
  cpu_round answers w = round_after_wait answers.changed (wait_without_state answers.waited w)

  -- The loop, as far as there are answers: what it sends, and how it ends.
  unfoldable pub cpu_rounds :
      List (Answers B X) → CpuWorker B X → Outcome (List (BlockSeed B X) × Next (CpuWorker B X))
  cpu_rounds [] w = ok ([], Next.goes_on w)
  cpu_rounds (a ∷ rest) w = cpu_round a w >>= λ r. elim (r.next) [
    | stopped result ↦ ok (add_submitted r.submitted ([], Next.stopped result))
    | goes_on w' ↦ (cpu_rounds rest w' >>= λ later. ok (add_submitted r.submitted later))
  ]
