-- ===== src/Stratum.antt =====
-- src/client/stratum.rs and src/client/stratum/statum_codec.rs: the client of a pool. Here are the
-- lines of the protocol and the state of the handler; a text is its bytes.
pub mod Settings
pub mod Handler
pub mod Shares
mod Keeping
mod Session
mod Answers
mod Mining
mod Samples
mod Tests
mod MiningTests
use kasop.Common.{ℕ, Bool, List, Option}
use kasop.Target.{Uint256}

abbrev pub Text : Type 0
Text = List ℕ

-- `ErrorCode`.
pub data ErrorCode : Type 0 where
  unknown job_not_found duplicate_share low_difficulty_share unauthorized not_subscribed : ErrorCode

-- `StratumError`, without the last value of its triple, which is only printed.
abbrev pub StratumError : Type 0
StratumError = Option (ErrorCode × Text)

pub data MiningNotify : Type 0 where
  mining_notify_short : Option ℕ → Text × Uint256 × ℕ → StratumError → MiningNotify
  mining_notify_long :
      Option ℕ
      → Text × Text × Text × Text × List Text × Text × Text × Text × Bool
      → StratumError
      → MiningNotify

pub data MiningSubmit : Type 0 where
  mining_submit_short : ℕ → Text × Text × Text → StratumError → MiningSubmit
  mining_submit_long : ℕ → Text × Text × Text × Text × Text → StratumError → MiningSubmit

-- A difficulty, a number of 32 bits with a floating point, is an element of `F`.
pub data StratumCommand (F : Type 0) : Type 0 where
  set_extranonce : ℕ → Text × ℕ → StratumError → StratumCommand F
  mining_set_difficulty : Option ℕ → F → StratumError → StratumCommand F
  mining_notify : MiningNotify → StratumCommand F
  subscribe : ℕ → Text → StratumError → StratumCommand F
  authorize : ℕ → Text × Text → StratumError → StratumCommand F
  mining_submit : MiningSubmit → StratumCommand F

pub data StratumLine (F : Type 0) : Type 0 where
  stratum_command : StratumCommand F → StratumLine F
  stratum_result : ℕ → Option Bool → StratumError → StratumLine F
  subscribe_result : ℕ → List (Text × Text) × Text × ℕ → StratumError → StratumLine F

-- `shares_pending` has one entry for a key.
pub record ShareStats : Type 0 where
  pub accepted : ℕ
  pub stale : ℕ
  pub low_diff : ℕ
  pub duplicate : ℕ
  pub shares_pending : List (ℕ × Text)

pub record StratumHandler : Type 0 where
  pub miner_address : Text
  pub devfund_address : Option Text
  pub devfund_percent : ℕ
  pub mining_dev : Option Bool
  pub block_template_ctr : ℕ
  pub target_pool : Uint256
  pub nonce_mask : ℕ
  pub nonce_fixed : ℕ
  pub extranonce : Option Text
  pub last_stratum_id : ℕ
  pub shares_stats : ShareStats
