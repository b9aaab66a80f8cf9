-- ===== src/Stratum/Handler.antt =====
-- src/client/stratum.rs: what the handler sends, and what it does with each line of the pool.
use kasop.Common.{
  ℕ, ◌+◌, ◌%◌, ◌^◌, Bool, true, false, not, List, [], ◌∷◌, Option, none, some, Outcome, ok, err,
  panic, ErrorKind, leb, ltb, ◌==◌, ◌&&◌, ◌||◌, if◌then◌else◌,
}
use kasop.Common.Int.{ℤ}
use kasop.Target.{Uint256}
use kasop.Pow.{BlockSeed, PartialBlock, RpcBlocks}
use kasop.Pow.HeavyHash.{Matrix}
use kasop.Miner.Manager.{MinerManager, Handled, process_block}
use kasop.Stratum.{
  Text, ErrorCode, MiningNotify, MiningSubmit, StratumCommand, StratumLine, ShareStats,
  StratumHandler,
}
use kasop.Stratum.Settings.{Settled, set_extranonce, set_difficulty}

-- `HashMap::remove`: what stood under the key, and the rest.
unfoldable pub remove : ℕ → List (ℕ × Text) → Option Text × List (ℕ × Text)
remove id [] = (none, [])
remove id (entry ∷ entries) =
    let (found, rest) = remove id entries in
    if id == entry.0 then (some entry.1, entries) else (found, entry ∷ rest)

-- `HashMap::insert`.
abbrev pub insert : ℕ → Text → List (ℕ × Text) → List (ℕ × Text)
insert id text entries = (id, text) ∷ (remove id entries).1

-- `fetch_add(1)` on an id, and on a counter of shares.
unfoldable pub next_id : ℕ → ℕ
next_id id = (id + 1) % 2 ^ 32

unfoldable pub counted : ℕ → ℕ
counted n = (n + 1) % 2 ^ 64

-- The line of a share that was found, from `create_block_channel`; `print` is `format!("{:#08x}")`.
-- A full block is `unreachable!`.
unfoldable pub submit_share :
    {B F : Type 0}
    → (ℕ → Text)
    → BlockSeed B Text
    → StratumHandler
    → Outcome (StratumLine F × StratumHandler)
submit_share print (BlockSeed.full_block b) h = panic
submit_share print (BlockSeed.partial_block p) h =
    let msg_id = h.last_stratum_id in
    ok (
      StratumLine.stratum_command (
          StratumCommand.mining_submit
            (MiningSubmit.mining_submit_short msg_id (h.miner_address, p.id, print p.nonce) none)),
      record h {
        last_stratum_id = next_id msg_id;
        shares_stats = record (h.shares_stats) {
          shares_pending = insert msg_id p.id h.shares_stats.shares_pending;
        };
      },
    )

-- The address to authorize, and whether it is that of the fund.
abbrev pub pay_address : StratumHandler → Text × Bool
pay_address h = elim (h.devfund_address) [
  | none ↦ (h.miner_address, false)
  | some address ↦
      if leb h.block_template_ctr h.devfund_percent
      then (address, true)
      else (h.miner_address, false)
]

-- `register`, where both lines can be sent. `agent` is the name and the version of the program.
unfoldable pub register :
    {F : Type 0} → Text → StratumHandler → List (StratumLine F) × StratumHandler
register agent h =
    let id = h.last_stratum_id in
    let (address, mining_dev) = pay_address h in
    (
      StratumLine.stratum_command (StratumCommand.subscribe id agent none)
          ∷ StratumLine.stratum_command
              (StratumCommand.authorize (next_id id) (address, 120 ∷ []) none)
          ∷ [],
      record h { last_stratum_id = next_id (next_id id); mining_dev = some mining_dev },
    )

abbrev pub unwrap_or : Option Bool → Bool → Bool
unwrap_or none b = b
unwrap_or (some b) d = b

-- The test with which `listen` ends, for the client to register again.
unfoldable pub has_to_register : StratumHandler → Bool
has_to_register h =
    (not (unwrap_or h.mining_dev true) && leb h.block_template_ctr h.devfund_percent)
    || (unwrap_or h.mining_dev false && ltb h.devfund_percent h.block_template_ctr)

-- What is left of the handler and the miner after a line.
pub record Answered (B : Type 0) : Type 0 where
  pub handler : StratumHandler
  pub miner : MinerManager B Text
  pub result : Outcome (Unit {0})

abbrev pub set_stats : StratumHandler → ShareStats → StratumHandler
set_stats h stats = record h { shares_stats = stats }

-- A result without an error.
unfoldable pub share_accepted : ℕ → ShareStats → ShareStats
share_accepted id stats =
    let (job, pending) = remove id stats.shares_pending in
    elim job [
      | none ↦ stats
      | some text ↦ record stats { shares_pending = pending; accepted = counted stats.accepted }
    ]

-- The counter of an error, or an error of the client.
abbrev pub count_error : ErrorCode → ShareStats → ShareStats × Outcome (Unit {0})
count_error ErrorCode.unknown stats = (stats, err ErrorKind.general)
count_error ErrorCode.job_not_found stats = (record stats { stale = counted stats.stale }, ok tt)
count_error ErrorCode.duplicate_share stats =
    (record stats { duplicate = counted stats.duplicate }, ok tt)
count_error ErrorCode.low_difficulty_share stats =
    (record stats { low_diff = counted stats.low_diff }, ok tt)
count_error ErrorCode.unauthorized stats = (stats, err ErrorKind.general)
count_error ErrorCode.not_subscribed stats = (stats, err ErrorKind.general)

-- A result with an error; the id must be pending.
unfoldable pub share_refused : ℕ → ErrorCode → ShareStats → ShareStats × Outcome (Unit {0})
share_refused id code stats =
    let (job, pending) = remove id stats.shares_pending in
    elim job [
      | none ↦ (stats, panic)
      | some text ↦ count_error code (record stats { shares_pending = pending })
    ]

-- The block of a job.
abbrev pub partial_block_of : Text → Uint256 → ℕ → StratumHandler → PartialBlock Text
partial_block_of id header_hash timestamp h = record {
  id = id;
  header_hash = header_hash;
  timestamp = timestamp;
  nonce = 0;
  target = h.target_pool;
  nonce_mask = h.nonce_mask;
  nonce_fixed = h.nonce_fixed;
  hash = none;
}

unfoldable pub count_template : StratumHandler → StratumHandler
count_template h = record h { block_template_ctr = (h.block_template_ctr + 1) % 2 ^ 16 % 10000 }

module _ {B : Type 0} where
  abbrev pub settled : MinerManager B Text → Settled → Answered B
  settled miner s = record { handler = s.handler; miner = miner; result = s.result }

  abbrev pub unhandled : StratumHandler → MinerManager B Text → Answered B
  unhandled h miner = record { handler = h; miner = miner; result = err ErrorKind.general }

  abbrev pub refused_line :
      StratumHandler → MinerManager B Text → ShareStats × Outcome (Unit {0}) → Answered B
  refused_line h miner (stats, result) = record {
    handler = set_stats h stats;
    miner = miner;
    result = result;
  }

  abbrev pub handed : StratumHandler → Handled B Text → Answered B
  handed h m = record { handler = h; miner = m.manager; result = m.result }

module _ {B F : Type 0} (recip_decode : F → ℕ × ℤ) (blocks : RpcBlocks B)
    (generate : Uint256 → Option Matrix) where
  unfoldable pub handle_message : StratumLine F → StratumHandler → MinerManager B Text → Answered B
  handle_message (StratumLine.stratum_result id result none) h miner = record {
    handler = set_stats h (share_accepted id h.shares_stats);
    miner = miner;
    result = ok tt;
  }
  handle_message (StratumLine.stratum_result id result (some (code, text))) h miner =
      refused_line h miner (share_refused id code h.shares_stats)
  handle_message
        (StratumLine.stratum_command
          (StratumCommand.set_extranonce id (extranonce, nonce_size) none))
        h miner =
      settled miner (set_extranonce extranonce nonce_size h)
  handle_message
        (StratumLine.stratum_command (StratumCommand.mining_set_difficulty id difficulty none)) h
        miner =
      settled miner (set_difficulty recip_decode difficulty h)
  handle_message
        (StratumLine.stratum_command (
          StratumCommand.mining_notify
            (MiningNotify.mining_notify_short id (job, header_hash, timestamp) none)))
        h miner =
      handed (count_template h) (
        process_block blocks generate
          (some (BlockSeed.partial_block (partial_block_of job header_hash timestamp h))) miner)
  handle_message (StratumLine.subscribe_result id (subscriptions, extranonce, nonce_size) error) h
        miner =
      settled miner (set_extranonce extranonce nonce_size h)
  handle_message _ h miner = unhandled h miner
