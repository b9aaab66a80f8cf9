-- ===== src/Stratum/Keeping.antt =====
-- src/client/stratum.rs: a line keeps the count of the shares and the bound of their keys.
use kasop.Common.{
  ℕ, ◌^◌, ◌<◌, Option, none, some, Outcome, ok, err, panic, ◌≡◌, refl, sym, ap, subst, Option-cases,
  inl, inr,
}
use kasop.Common.Int.{ℤ}
use kasop.Target.{Uint256}
use kasop.Pow.{RpcBlocks}
use kasop.Pow.HeavyHash.{Matrix}
use kasop.Miner.Manager.{MinerManager}
use kasop.Stratum.{
  Text, ErrorCode, MiningNotify, StratumCommand, StratumLine, ShareStats, StratumHandler,
}
use kasop.Stratum.Settings.{from_str_radix, set_extranonce, set_difficulty, settle_target}
use kasop.Stratum.Handler.{
  remove, count_error, share_accepted, share_refused, Answered, count_template, handle_message,
}
use kasop.Stratum.Shares.{total, Below, Below-remove, share_accepted-total, share_refused-total}

-- What the shares of two handlers have in common after a line: the id, and what they count.
pub record Keeps (h h' : StratumHandler) : Type 0 where
  pub id : h'.last_stratum_id ≡ h.last_stratum_id
  pub count : total h'.shares_stats ≡ total h.shares_stats
  pub below :
      (top : ℕ) → Below top h.shares_stats.shares_pending → Below top h'.shares_stats.shares_pending

same :
    (h h' : StratumHandler)
    → h'.last_stratum_id ≡ h.last_stratum_id
    → h'.shares_stats ≡ h.shares_stats
    → Keeps h h'
same h h' id stats = record {
  id = id;
  count = ap total stats;
  below = λ top b. subst (λ s. Below top s.shares_pending) (sym stats) b;
}

set_extranonce-Keeps :
    (text : Text) (size : ℕ) (h : StratumHandler) → Keeps h (set_extranonce text size h).handler
unfolding set_extranonce
set_extranonce-Keeps text size h = elim (Option-cases (from_str_radix text)) [
  | inl e ↦ rw (set_extranonce, e) (same h _ refl refl)
  | inr (fixed, e) ↦ rw (set_extranonce, e) (same h _ refl refl)
]

settle_target-Keeps :
    (h : StratumHandler) (words : Outcome Uint256) → Keeps h (settle_target h words).handler
settle_target-Keeps h (ok target) = same h _ refl refl
settle_target-Keeps h (err kind) = same h h refl refl
settle_target-Keeps h panic = same h h refl refl

Below-accepted :
    (id top : ℕ) (stats : ShareStats)
    → Below top stats.shares_pending
    → Below top (share_accepted id stats).shares_pending
unfolding share_accepted
Below-accepted id top stats b = elim (Option-cases (remove id stats.shares_pending).0) [
  | inl e ↦ rw (share_accepted, e) b
  | inr (text, e) ↦ rw (share_accepted, e) (Below-remove id top stats.shares_pending b)
]

pending-counted :
    (code : ErrorCode) (stats : ShareStats)
    → (count_error code stats).0.shares_pending ≡ stats.shares_pending
pending-counted ErrorCode.unknown stats = refl
pending-counted ErrorCode.job_not_found stats = refl
pending-counted ErrorCode.duplicate_share stats = refl
pending-counted ErrorCode.low_difficulty_share stats = refl
pending-counted ErrorCode.unauthorized stats = refl
pending-counted ErrorCode.not_subscribed stats = refl

Below-refused :
    (id top : ℕ) (code : ErrorCode) (stats : ShareStats)
    → Below top stats.shares_pending
    → Below top (share_refused id code stats).0.shares_pending
unfolding share_refused
Below-refused id top code stats b = elim (Option-cases (remove id stats.shares_pending).0) [
  | inl e ↦ rw (share_refused, e) b
  | inr (text, e) ↦
      rw (share_refused, e)
        (subst (Below top)
          (sym (
            pending-counted code
              (record stats { shares_pending = (remove id stats.shares_pending).1 })))
          (Below-remove id top stats.shares_pending b))
]

module _ {B F : Type 0} (recip_decode : F → ℕ × ℤ) (blocks : RpcBlocks B)
    (generate : Uint256 → Option Matrix) where
  abbrev pub answered : StratumLine F → StratumHandler → MinerManager B Text → Answered B
  answered = handle_message recip_decode blocks generate

  pub handle_message-Keeps :
      (l : StratumLine F) (h : StratumHandler) (m : MinerManager B Text)
      → total h.shares_stats < 2 ^ 64
      → (answered l h m).result ≡ ok tt
      → Keeps h (answered l h m).handler
  unfolding handle_message set_difficulty count_template
  handle_message-Keeps (StratumLine.stratum_result id result none) h m room e = record {
    id = refl;
    count = share_accepted-total id h.shares_stats room;
    below = λ top b. Below-accepted id top h.shares_stats b;
  }
  handle_message-Keeps (StratumLine.stratum_result id result (some (code, text))) h m room e =
      record {
        id = refl;
        count = share_refused-total id code h.shares_stats room e;
        below = λ top b. Below-refused id top code h.shares_stats b;
      }
  handle_message-Keeps (StratumLine.subscribe_result id (names, text, size) error) h m room e =
      set_extranonce-Keeps text size h
  handle_message-Keeps
        (StratumLine.stratum_command (StratumCommand.set_extranonce id (text, size) none)) h m room
        e =
      set_extranonce-Keeps text size h
  handle_message-Keeps
        (StratumLine.stratum_command (StratumCommand.set_extranonce id p (some error))) h m room e =
      same h h refl refl
  handle_message-Keeps
        (StratumLine.stratum_command (StratumCommand.mining_set_difficulty id difficulty none)) h m
        room e =
      settle_target-Keeps h _
  handle_message-Keeps
        (StratumLine.stratum_command
          (StratumCommand.mining_set_difficulty id difficulty (some error)))
        h m room e =
      same h h refl refl
  handle_message-Keeps
        (StratumLine.stratum_command (
          StratumCommand.mining_notify
            (MiningNotify.mining_notify_short id (job, hash, time) none)))
        h m room e =
      same h _ refl refl
  handle_message-Keeps
        (StratumLine.stratum_command
          (StratumCommand.mining_notify (MiningNotify.mining_notify_short id p (some error))))
        h m room e =
      same h h refl refl
  handle_message-Keeps
        (StratumLine.stratum_command
          (StratumCommand.mining_notify (MiningNotify.mining_notify_long id p error)))
        h m room e =
      same h h refl refl
  handle_message-Keeps (StratumLine.stratum_command (StratumCommand.subscribe id agent error)) h m
        room e =
      same h h refl refl
  handle_message-Keeps (StratumLine.stratum_command (StratumCommand.authorize id p error)) h m room
        e =
      same h h refl refl
  handle_message-Keeps (StratumLine.stratum_command (StratumCommand.mining_submit share)) h m room
        e =
      same h h refl refl
