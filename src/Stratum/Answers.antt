-- ===== src/Stratum/Answers.antt =====
-- src/client/stratum.rs: the answers of the pool to a share, and to the lines of `register`.
use kasop.Common.{
  ◌≢◌, none, [], ◌∷◌, ℕ, ◌+◌, ◌%◌, ◌^◌, ◌<◌, Bool, true, List, Option, some, none, ok, panic, ◌==◌,
  ◌≡◌, refl, ap, arith,
}
use native.Mathlib.Nat.{mod-eq_of_lt}
use kasop.Common.Int.{ℤ}
use kasop.Target.{Uint256}
use kasop.Pow.{BlockSeed, PartialBlock, RpcBlocks}
use kasop.Pow.HeavyHash.{Matrix}
use kasop.Miner.Manager.{MinerManager}
use kasop.Stratum.{Text, StratumCommand, MiningSubmit, ErrorCode, StratumLine, StratumHandler}
use kasop.Stratum.Handler.{
  remove, insert, next_id, counted, submit_share, register, pay_address, count_error,
  share_accepted, share_refused, refused_line, handle_message,
}
use kasop.Stratum.Shares.{Below, remove-fresh}

-- The handler after a share.
abbrev pub submitted : StratumHandler → Text → StratumHandler
submitted h job = record h {
  last_stratum_id = next_id h.last_stratum_id;
  shares_stats = record (h.shares_stats) {
    shares_pending = insert h.last_stratum_id job h.shares_stats.shares_pending;
  };
}

remove-insert :
    (h : StratumHandler) (job : Text)
    → Below h.last_stratum_id h.shares_stats.shares_pending
    → remove h.last_stratum_id (submitted h job).shares_stats.shares_pending
      ≡ (some job, h.shares_stats.shares_pending)
unfolding remove
remove-insert h job below =
    let id = h.last_stratum_id in
    let fresh = remove-fresh id id h.shares_stats.shares_pending below (omega arith) in
    let same : (id == id) ≡ true = ground arith in rw (same, fresh) refl

module _ {B F : Type 0} (recip_decode : F → ℕ × ℤ) (blocks : RpcBlocks B)
    (generate : Uint256 → Option Matrix) where
  -- Where no key reaches the next id: a share of a job is sent under this id, with the
  -- address, the job and the nonce, and the answer to it
  -- leaves the handler, but for the next id, as it was before the share with one more counted:
  -- accepted if the answer has no error, and otherwise what `count_error` counts for its code,
  -- which is the result too.
  pub handle_message-submit_share :
      (print : ℕ → Text) (p : PartialBlock Text) (h : StratumHandler) (m : MinerManager B Text)
      (result : Option Bool) (code : ErrorCode) (text : Text)
      → Below h.last_stratum_id h.shares_stats.shares_pending
      → (submit_share {B = B} {F = F} print (BlockSeed.partial_block p) h
          ≡ ok (
            StratumLine.stratum_command (
                StratumCommand.mining_submit (
                  MiningSubmit.mining_submit_short h.last_stratum_id
                    (h.miner_address, p.id, print p.nonce)
                    none)),
            submitted h p.id,
          ))
        × (handle_message recip_decode blocks generate
              (StratumLine.stratum_result h.last_stratum_id result none)
              (submitted h p.id)
              m
            ≡ record {
              handler = record h {
                last_stratum_id = next_id h.last_stratum_id;
                shares_stats = record (h.shares_stats) {
                  accepted = counted h.shares_stats.accepted;
                };
              };
              miner = m;
              result = ok tt;
            })
        × (handle_message recip_decode blocks generate
              (StratumLine.stratum_result h.last_stratum_id result (some (code, text)))
              (submitted h p.id)
              m
            ≡ refused_line
                (record h { last_stratum_id = next_id h.last_stratum_id })
                m
                (count_error code h.shares_stats))
  unfolding submit_share handle_message share_accepted share_refused
  handle_message-submit_share print p h m result code text below =
      let e = remove-insert h p.id below in
      let job = ap (λ (r : Option Text × List (ℕ × Text)). r.0) e in
      let rest = ap (λ (r : Option Text × List (ℕ × Text)). r.1) e in
      (refl, rw (share_accepted, job) (rw rest refl), rw (share_refused, job) (rw rest refl))

  refused-panics :
      (id : ℕ) (result : Option Bool) (code : ErrorCode) (text : Text) (h : StratumHandler)
      (m : MinerManager B Text)
      → remove id h.shares_stats.shares_pending ≡ (none, h.shares_stats.shares_pending)
      → handle_message {F = F} recip_decode blocks generate
          (StratumLine.stratum_result id result (some (code, text)))
          h
          m
        ≡ record { handler = h; miner = m; result = panic }
  unfolding handle_message share_refused
  refused-panics id result code text h m missing =
      let job = ap (λ (r : Option Text × List (ℕ × Text)). r.0) missing in
      rw (share_refused, job) refl

  -- Where no key reaches the next id, and the two ids of `register` do not wrap: `register` sends
  -- two lines, one that subscribes and one that authorizes, and an answer with an error to either,
  -- under the id of the line, is a panic of the client whatever the code, also where the code says
  -- that the client is not authorized.
  pub handle_message-register :
      (agent : Text) (h : StratumHandler) (m : MinerManager B Text) (result : Option Bool)
      (code : ErrorCode) (text : Text)
      → Below h.last_stratum_id h.shares_stats.shares_pending
      → h.last_stratum_id + 1 < 2 ^ 32
      → (id1 : ℕ) × (id2 : ℕ) × ((register {F = F} agent h).0
          ≡ StratumLine.stratum_command (StratumCommand.subscribe id1 agent none)
            ∷ StratumLine.stratum_command
                (StratumCommand.authorize id2 ((pay_address h).0, 120 ∷ []) none)
            ∷ [])
        × (id1 ≢ id2)
        × (handle_message {F = F} recip_decode blocks generate
              (StratumLine.stratum_result id1 result (some (code, text)))
              (register {F = F} agent h).1
              m
            ≡ record { handler = (register {F = F} agent h).1; miner = m; result = panic })
        × (handle_message {F = F} recip_decode blocks generate
              (StratumLine.stratum_result id2 result (some (code, text)))
              (register {F = F} agent h).1
              m
            ≡ record { handler = (register {F = F} agent h).1; miner = m; result = panic })
  unfolding register next_id
  handle_message-register agent h m result code text below room =
      let id = h.last_stratum_id in
      let pending = h.shares_stats.shares_pending in
      let wide : (id + 1) % 2 ^ 32 ≡ id + 1 = mod-eq_of_lt room in
      (
        id,
        (id + 1) % 2 ^ 32,
        refl,
        λ e. omega (arith, e, wide),
        refused-panics id result code text (register {F = F} agent h).1 m
            (remove-fresh id id pending below (omega arith)),
        refused-panics ((id + 1) % 2 ^ 32) result code text (register {F = F} agent h).1 m
            (remove-fresh ((id + 1) % 2 ^ 32) id pending below (omega (arith, wide))),
      )
