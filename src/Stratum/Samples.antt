-- ===== src/Stratum/Samples.antt =====
-- Test data for the client of a pool.
use kasop.Common.{ℕ, ◌+◌, ◌-◌, ◌^◌, true, false, [], ◌∷◌, replicate, Option, some, none, panic}
use kasop.Common.Int.{ℤ, negsuc}
use kasop.Target.{Uint256}
use kasop.Pow.{RpcBlocks}
use kasop.Pow.HeavyHash.{Matrix}
use kasop.Miner.Manager.{MinerManager}
use kasop.Stratum.{Text, ShareStats, StratumHandler}

abbrev pub job_7 : Text
job_7 = 55 ∷ []

-- Two shares wait, under the ids 2 and 3.
abbrev pub stats : ShareStats
stats = record {
  accepted = 4;
  stale = 1;
  low_diff = 0;
  duplicate = 0;
  shares_pending = (3, job_7) ∷ (2, job_7) ∷ [];
}

abbrev pub handler : StratumHandler
handler = record {
  miner_address = 107 ∷ [];
  devfund_address = none;
  devfund_percent = 0;
  mining_dev = some false;
  block_template_ctr = 17;
  target_pool = (2 ^ 64 - 1) ∷ (2 ^ 64 - 1) ∷ (2 ^ 64 - 1) ∷ (2 ^ 64 - 1) ∷ [];
  nonce_mask = 0;
  nonce_fixed = 0;
  extranonce = none;
  last_stratum_id = 4;
  shares_stats = stats;
}

-- The reciprocal of the difficulty 2 ^ n, as a mantissa of 24 bits.
abbrev pub recip_power : ℕ → ℕ × ℤ
recip_power n = (2 ^ 23, negsuc (n + 22))

abbrev pub no_blocks : RpcBlocks (Unit {0})
no_blocks = record {
  has_header = λ b. false;
  bits = λ b. 0;
  timestamp = λ b. 0;
  pre_pow_hash = λ b. panic;
  with_nonce = λ nonce b. b;
}

abbrev pub no_rows : Matrix
no_rows = replicate 64 []

abbrev pub find : Uint256 → Option Matrix
find hash = some no_rows

abbrev pub miner : MinerManager (Unit {0}) Text
miner = record {
  block_channel = record { value = none; id = 1; receivers_count = 2; sender_alive = true };
  is_synced = true;
  current_state_id = 0;
}

abbrev pub hash : Uint256
hash = 1 ∷ 2 ∷ 3 ∷ 4 ∷ []
