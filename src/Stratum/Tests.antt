-- ===== src/Stratum/Tests.antt =====
-- Tests of the client of a pool, and the theorems at concrete inputs.
use kasop.Common.{
  ℕ, ◌+◌, ◌-◌, ◌*◌, ◌^◌, ◌≤◌, ◌<◌, true, List, [], ◌∷◌, map, some, none, ok, err, panic, ErrorKind,
  ◌≡◌, ◌≢◌, ◌⊎◌, inl, refl, arith,
}
use kasop.Common.Int.{pos, negsuc, ◌+ℤ◌}
use kasop.Target.{Uint256, IsUint256, value}
use kasop.Pow.{BlockSeed}
use kasop.Stratum.{Text, StratumCommand, MiningSubmit, ErrorCode, StratumLine, StratumHandler}
use kasop.Stratum.Settings.{set_extranonce, set_difficulty}
use kasop.Stratum.Settings.Difficulty.{set_difficulty_lem}
use kasop.Stratum.Settings.Extranonce.{hex_char, number_from, set_extranonce_lem}
use kasop.Stratum.Handler.{
  remove, next_id, counted, submit_share, share_accepted, share_refused, register, pay_address,
  count_error, Answered, refused_line, partial_block_of, handle_message,
}
use kasop.Stratum.Shares.{total, Below}
use kasop.Stratum.Session.{PoolEvent, run_event, run_events, run_events-total}
use kasop.Stratum.Answers.{submitted, handle_message-submit_share, handle_message-register}
use kasop.Stratum.Samples.{job_7, stats, handler, recip_power, no_blocks, find, miner, hash}

exponent : pos 208 +ℤ negsuc 34 ≡ pos 173
unfolding ◌+ℤ◌
exponent = refl

set_difficulty_example :
    ((2 ^ 23 * 0xffff * 2 ^ 173 < 2 ^ 256)
      × (target : Uint256) × (set_difficulty recip_power 12 handler
          ≡ record { handler = record handler { target_pool = target }; result = ok tt })
      × IsUint256 target
      × (value target ≡ 2 ^ 23 * 0xffff * 2 ^ 173))
    ⊎ ((2 ^ 256 ≤ 2 ^ 23 * 0xffff * 2 ^ 173)
        × (set_difficulty recip_power 12 handler
            ≡ record { handler = handler; result = err ErrorKind.general }))
set_difficulty_example =
    set_difficulty_lem recip_power 12 handler (2 ^ 23) 173 (negsuc 34) refl exponent (omega arith)
      (omega arith) (inl (omega arith))

-- The extranonce "0a1b2c", with 5 bytes left to the miner.
set_extranonce_example :
    set_extranonce (map hex_char (0 ∷ 10 ∷ 1 ∷ 11 ∷ 2 ∷ 12 ∷ [])) 5 handler ≡ record {
      handler = record handler {
        extranonce = some (map hex_char (0 ∷ 10 ∷ 1 ∷ 11 ∷ 2 ∷ 12 ∷ []));
        nonce_fixed = number_from 0 (0 ∷ 10 ∷ 1 ∷ 11 ∷ 2 ∷ 12 ∷ []) * 2 ^ (5 * 8);
        nonce_mask = 2 ^ (5 * 8) - 1;
      };
      result = ok tt;
    }
set_extranonce_example =
    set_extranonce_lem 0 (10 ∷ 1 ∷ 11 ∷ 2 ∷ 12 ∷ []) 5 handler
      (omega arith, (omega arith, (omega arith, (omega arith, (omega arith, (omega arith, tt))))))
      (omega arith) (omega arith)

abbrev text_of : ℕ → Text
text_of n = n ∷ []

-- A share is found; the pool accepts it, and another one is stale.
abbrev session : List (PoolEvent ℕ)
session =
    PoolEvent.found (partial_block_of job_7 hash 100 handler)
    ∷ PoolEvent.line (StratumLine.stratum_result 4 (some true) none)
    ∷ PoolEvent.line (StratumLine.stratum_result 3 none (some (ErrorCode.job_not_found, [])))
    ∷ []

abbrev last_handler : StratumHandler
last_handler = record handler {
  last_stratum_id = 5;
  shares_stats = record {
    accepted = 5;
    stale = 2;
    low_diff = 0;
    duplicate = 0;
    shares_pending = (2, job_7) ∷ [];
  };
}

few : total (handler.shares_stats) + 1 < 2 ^ 64
unfolding total
few = omega arith

session_runs :
    run_events recip_power no_blocks find session (handler, miner) text_of
    ≡ ok (last_handler, miner)
unfolding run_events run_event submit_share handle_message share_accepted share_refused remove
    next_id counted
session_runs = refl

run_events-total_example :
    (total (last_handler.shares_stats) ≡ total (handler.shares_stats) + 1)
    × (5 ≡ 4 + 1)
    × Below 5 ((2, job_7) ∷ [])
run_events-total_example =
    run_events-total recip_power no_blocks find session handler last_handler miner miner text_of
      (omega arith, (omega arith, tt)) (omega arith) few session_runs

abbrev nonce_100 : ℕ
nonce_100 = (partial_block_of job_7 hash 100 handler).nonce

handle_message-submit_share_example :
    (submit_share {B = Unit {0}} {F = ℕ} text_of
        (BlockSeed.partial_block (partial_block_of job_7 hash 100 handler))
        handler
      ≡ ok (
        StratumLine.stratum_command (
            StratumCommand.mining_submit
              (MiningSubmit.mining_submit_short 4 (107 ∷ [], job_7, text_of nonce_100) none)),
        submitted handler job_7,
      ))
    × (handle_message recip_power no_blocks find
          (StratumLine.stratum_result 4 (some true) none)
          (submitted handler job_7)
          miner
        ≡ record {
          handler = record handler {
            last_stratum_id = next_id 4;
            shares_stats = record stats { accepted = counted 4 };
          };
          miner = miner;
          result = ok tt;
        })
    × (handle_message recip_power no_blocks find
          (StratumLine.stratum_result 4 (some true) (some (ErrorCode.duplicate_share, [])))
          (submitted handler job_7)
          miner
        ≡ refused_line
            (record handler { last_stratum_id = next_id 4 })
            miner
            (count_error ErrorCode.duplicate_share stats))
handle_message-submit_share_example =
    handle_message-submit_share recip_power no_blocks find text_of
      (partial_block_of job_7 hash 100 handler) handler miner (some true) ErrorCode.duplicate_share
      [] (omega arith, (omega arith, tt))

abbrev refused_register : ℕ → Answered (Unit {0})
refused_register id =
    handle_message {F = ℕ} recip_power no_blocks find
      (StratumLine.stratum_result id none (some (ErrorCode.unauthorized, [])))
      (register {F = ℕ} [] handler).1 miner

abbrev panicked : Answered (Unit {0})
panicked = record { handler = (register {F = ℕ} [] handler).1; miner = miner; result = panic }

handle_message-register_example :
    (id1 : ℕ) × (id2 : ℕ) × ((register {F = ℕ} [] handler).0
      ≡ StratumLine.stratum_command (StratumCommand.subscribe id1 [] none)
        ∷ StratumLine.stratum_command
            (StratumCommand.authorize id2 ((pay_address handler).0, 120 ∷ []) none)
        ∷ [])
    × (id1 ≢ id2)
    × (refused_register id1 ≡ panicked)
    × (refused_register id2 ≡ panicked)
handle_message-register_example =
    handle_message-register recip_power no_blocks find [] handler miner none ErrorCode.unauthorized
      [] (omega arith, (omega arith, tt)) (omega arith)
