-- ===== src/Miner/Manager.antt =====
-- src/miner.rs: `MinerManager`, what it hands to the workers.
use kasop.Common.{
  ℕ, Bool, true, false, Option, none, some, Outcome, ok, err, panic, ErrorKind, if◌then◌else◌, ◌==◌,
}
use kasop.Target.{Uint256}
use kasop.Pow.{BlockSeed, RpcBlocks, PowState, new_state}
use kasop.Pow.HeavyHash.{Matrix}
use kasop.Watch.{Result, Shared, increment}
use kasop.Miner.{WorkerCommand}

-- `Sender::send` of src/watch.rs, without the steps of the other threads between its own.
unfoldable pub send : {T : Type 0} → T → Shared T → Result (Shared T)
send value shared =
    if shared.receivers_count == 0
    then Result.closed
    else Result.done (record shared { value = value; id = increment shared.id })

pub record MinerManager (B X : Type 0) : Type 0 where
  pub block_channel : Shared (Option (WorkerCommand B X))
  pub is_synced : Bool
  pub current_state_id : ℕ

-- A handler leaves a manager also where it fails.
pub record Handled (B X : Type 0) : Type 0 where
  pub manager : MinerManager B X
  pub result : Outcome (Unit {0})

module _ {B X : Type 0} where
  abbrev pub after_send :
      MinerManager B X → Result (Shared (Option (WorkerCommand B X))) → Handled B X
  after_send m Result.closed = record { manager = m; result = err ErrorKind.general }
  after_send m (Result.done channel) = record {
    manager = record m { block_channel = channel };
    result = ok tt;
  }

  abbrev pub send_to_workers : Option (WorkerCommand B X) → MinerManager B X → Handled B X
  send_to_workers command m = after_send m (send command m.block_channel)

  -- The state of a block, or the reason why there is none.
  abbrev pub send_state : Outcome (PowState B X) → MinerManager B X → Handled B X
  send_state panic m = record { manager = m; result = panic }
  send_state (err kind) m = record { manager = m; result = err kind }
  send_state (ok s) m = send_to_workers (some (WorkerCommand.job s)) m

  unfoldable pub process_block :
      RpcBlocks B
      → (Uint256 → Option Matrix)
      → Option (BlockSeed B X)
      → MinerManager B X
      → Handled B X
  process_block blocks generate (some b) m =
      send_state (new_state blocks generate m.current_state_id b)
        (record m { is_synced = true; current_state_id = increment m.current_state_id })
  process_block blocks generate none m =
      if m.is_synced
      then send_to_workers none (record m { is_synced = false })
      else record { manager = m; result = ok tt }

  -- The first step of `drop`: its result is only logged.
  unfoldable pub drop_manager : MinerManager B X → MinerManager B X
  drop_manager m = (send_to_workers (some WorkerCommand.close) m).manager
