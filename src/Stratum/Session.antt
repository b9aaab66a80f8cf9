-- ===== src/Stratum/Session.antt =====
-- src/client/stratum.rs: the shares of a session, in which shares are found and lines come in any
-- order. An event is one call of the closure that sends a share, or of `handle_message`.
use kasop.Common.{
  ℕ, suc, ◌+◌, ◌^◌, ◌≤◌, ◌<◌, List, [], ◌∷◌, Option, Outcome, ok, err, panic, ◌>>=◌, >>=-eq-ok, ◌≡◌,
  sym, ap, subst, arith,
}
use native.Mathlib.Nat.{mod-eq_of_lt}
use kasop.Common.Int.{ℤ}
use kasop.Target.{Uint256}
use kasop.Pow.{BlockSeed, PartialBlock, RpcBlocks}
use kasop.Pow.HeavyHash.{Matrix}
use kasop.Miner.Manager.{MinerManager}
use kasop.Stratum.{Text, StratumLine, StratumHandler}
use kasop.Stratum.Handler.{insert, next_id, submit_share}
use kasop.Stratum.Keeping.{answered, handle_message-Keeps}
use kasop.Stratum.Shares.{total, Below, remove-fresh}

pub data PoolEvent (F : Type 0) : Type 0 where
  found : PartialBlock Text → PoolEvent F
  line : StratumLine F → PoolEvent F

-- The shares that are found.
abbrev pub shares_of : {F : Type 0} → List (PoolEvent F) → ℕ
shares_of [] = 0
shares_of (PoolEvent.found p ∷ events) = suc (shares_of events)
shares_of (PoolEvent.line l ∷ events) = shares_of events

abbrev handler_of : {A : Type 0} → StratumHandler → Outcome (StratumHandler × A) → StratumHandler
handler_of h (ok state) = state.0
handler_of h (err kind) = h
handler_of h panic = h

-- The account of a handler, `n` shares after another.
abbrev Accounts : StratumHandler → ℕ → StratumHandler → Type 0
Accounts h n h' =
    (total h'.shares_stats ≡ total h.shares_stats + n)
    × (h'.last_stratum_id ≡ h.last_stratum_id + n)
    × Below h'.last_stratum_id h'.shares_stats.shares_pending

Below-up : (a b : ℕ) (entries : List (ℕ × Text)) → Below a entries → a ≤ b → Below b entries
Below-up a b [] h le = tt
Below-up a b (entry ∷ entries) (h, hs) le = (omega arith, Below-up a b entries hs le)

submitted-Accounts :
    (h : StratumHandler) (job : Text)
    → Below h.last_stratum_id h.shares_stats.shares_pending
    → h.last_stratum_id + 1 < 2 ^ 32
    → Accounts h 1 (record h {
      last_stratum_id = next_id h.last_stratum_id;
      shares_stats = record (h.shares_stats) {
        shares_pending = insert h.last_stratum_id job h.shares_stats.shares_pending;
      };
    })
unfolding next_id total
submitted-Accounts h job below room =
    let wide : next_id h.last_stratum_id ≡ h.last_stratum_id + 1 = mod-eq_of_lt room in
    let fresh =
      remove-fresh h.last_stratum_id h.last_stratum_id h.shares_stats.shares_pending below
        (omega arith) in
    rw fresh (omega arith, wide, (omega (arith, wide), Below-up _ _ _ below (omega (arith, wide))))

module _ {B F : Type 0} (recip_decode : F → ℕ × ℤ) (blocks : RpcBlocks B)
    (generate : Uint256 → Option Matrix) where
  unfoldable pub run_event :
      PoolEvent F
      → StratumHandler × MinerManager B Text
      → (ℕ → Text)
      → Outcome (StratumHandler × MinerManager B Text)
  run_event (PoolEvent.found p) (h, m) print =
      let seed : BlockSeed B Text = BlockSeed.partial_block p in
      let sent : Outcome (StratumLine F × StratumHandler) = submit_share print seed h in
      sent >>= λ submitted. ok (submitted.1, m)
  run_event (PoolEvent.line l) (h, m) print =
      let a = answered recip_decode blocks generate l h m in
      a.result >>= λ done. ok (a.handler, a.miner)

  unfoldable pub run_events :
      List (PoolEvent F)
      → StratumHandler × MinerManager B Text
      → (ℕ → Text)
      → Outcome (StratumHandler × MinerManager B Text)
  run_events [] state print = ok state
  run_events (event ∷ events) state print =
      run_event event state print >>= λ next. run_events events next print

  -- A session starts with keys below the next id, and ends without an error or a panic. Neither the
  -- ids that its shares take nor its counts reach their bound. Then the shares that were accepted,
  -- stale, of low difficulty, duplicate, and that still wait are as many as at the start and those
  -- that were found, and the keys are still below the next id.
  pub run_events-total :
      (events : List (PoolEvent F)) (h h' : StratumHandler) (m m' : MinerManager B Text)
      (print : ℕ → Text)
      → Below h.last_stratum_id h.shares_stats.shares_pending
      → h.last_stratum_id + shares_of events < 2 ^ 32
      → total h.shares_stats + shares_of events < 2 ^ 64
      → run_events events (h, m) print ≡ ok (h', m')
      → (total h'.shares_stats ≡ total h.shares_stats + shares_of events)
        × (h'.last_stratum_id ≡ h.last_stratum_id + shares_of events)
        × Below h'.last_stratum_id h'.shares_stats.shares_pending
  unfolding run_events run_event submit_share
  run_events-total [] h h' m m' print below ids room e =
      subst (Accounts h 0) (ap (handler_of h) e) (omega arith, omega arith, below)
  run_events-total (PoolEvent.found p ∷ events) h h' m m' print below ids room e =
      let submitted = record h {
        last_stratum_id = next_id h.last_stratum_id;
        shares_stats = record (h.shares_stats) {
          shares_pending = insert h.last_stratum_id p.id h.shares_stats.shares_pending;
        };
      } in
      let (id, count, keys) = submitted-Accounts h p.id below (omega arith) in
      let (end_count, end_id, end_keys) =
        run_events-total events submitted h' m m' print keys (omega (arith, id, ids))
          (omega (arith, count, room)) e in
      (omega (arith, end_count, count), omega (arith, end_id, id), end_keys)
  run_events-total (PoolEvent.line l ∷ events) h h' m m' print below ids room e =
      let a = answered recip_decode blocks generate l h m in
      let (next, first, last) = >>=-eq-ok (run_event (PoolEvent.line l) (h, m) print) _ e in
      let (done, fine, rest) = >>=-eq-ok a.result (λ d. ok (a.handler, a.miner)) first in
      let later : run_events events (a.handler, a.miner) print ≡ ok (h', m') = rw fine at e in
      let keeps = handle_message-Keeps recip_decode blocks generate l h m (omega arith) fine in
      let id = keeps.id in
      let count = keeps.count in
      let keys =
        subst (λ (t : ℕ). Below t a.handler.shares_stats.shares_pending) (sym id)
          (keeps.below h.last_stratum_id below) in
      let (end_count, end_id, end_keys) =
        run_events-total events a.handler h' a.miner m' print keys (omega (arith, id, ids))
          (omega (arith, count, room)) later in
      (omega (arith, end_count, count), omega (arith, end_id, id), end_keys)
