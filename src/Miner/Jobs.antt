-- ===== src/Miner/Jobs.antt =====
-- src/miner.rs: the jobs that the manager hands to the workers.
use kasop.Common.{
  ◌<◌, Bool-cases, true, false, Option, none, some, Outcome, ok, err, panic, ◌==◌, ◌≡◌, ◌⊎◌, inl,
  inr, refl, sym, ap, subst, ErrorKind, ◌∙◌, arith,
}
use kasop.Target.{Uint256}
use kasop.Pow.{BlockSeed, RpcBlocks, PowState, new_state}
use kasop.Pow.HeavyHash.{Matrix}
use kasop.Watch.{Result, Shared, increment}
use kasop.Miner.{WorkerCommand, Next, take_waited}
use kasop.Miner.Manager.{MinerManager, Handled, send, send_state, process_block}

send-cases :
    {T : Type 0} (value : T) (shared : Shared T)
    → ((shared.receivers_count ≡ 0) × (send value shared ≡ Result.closed))
      ⊎ ((0 < shared.receivers_count)
          × (send value shared
              ≡ Result.done (record shared { value = value; id = increment shared.id })))
unfolding send
send-cases value shared = elim (Bool-cases (shared.receivers_count == 0)) [
  | inl e ↦ inl (ground arith, rw e refl)
  | inr e ↦ inr (ground arith, rw e refl)
]

module _ {B X : Type 0} where
  -- What a handler has done: the state that was made is in the channel, or no worker is left for it,
  -- or none was made. `m` is the manager before.
  pub Handed : Outcome (PowState B X) → MinerManager B X → Handled B X → Type 0
  Handed (ok s) m h =
      ((0 < m.block_channel.receivers_count)
        × (h.result ≡ ok tt)
        × (h.manager.block_channel ≡ record (m.block_channel) {
          value = some (WorkerCommand.job s);
          id = increment m.block_channel.id;
        })
        × (take_waited (Result.done h.manager.block_channel.value) ≡ Next.goes_on (some s)))
      ⊎ ((m.block_channel.receivers_count ≡ 0)
          × (h.result ≡ err ErrorKind.general)
          × (h.manager.block_channel ≡ m.block_channel))
  Handed (err kind) m h = (h.result ≡ err kind) × (h.manager.block_channel ≡ m.block_channel)
  Handed panic m h = (h.result ≡ panic) × (h.manager.block_channel ≡ m.block_channel)

  -- Only the channel of the manager before matters.
  Handed-channel :
      (made : Outcome (PowState B X)) (m n : MinerManager B X) (h : Handled B X)
      → n.block_channel ≡ m.block_channel
      → Handed made n h
      → Handed made m h
  unfolding Handed
  Handed-channel (ok s) m n h same (inl (left, result, c, taken)) = inl (
    subst (λ k. 0 < k.receivers_count) same left,
    result,
    c
        ∙ ap {A = Shared (Option (WorkerCommand B X))}
            (λ k. record k { value = some (WorkerCommand.job s); id = increment k.id }) same,
    taken,
  )
  Handed-channel (ok s) m n h same (inr (none_left, result, c)) =
      inr (sym (ap (λ k. k.receivers_count) same) ∙ none_left, result, c ∙ same)
  Handed-channel (err kind) m n h same (result, c) = (result, c ∙ same)
  Handed-channel panic m n h same (result, c) = (result, c ∙ same)

  send_state-fields :
      (made : Outcome (PowState B X)) (m : MinerManager B X)
      → ((send_state made m).manager.is_synced ≡ m.is_synced)
        × ((send_state made m).manager.current_state_id ≡ m.current_state_id)
  send_state-fields panic m = (refl, refl)
  send_state-fields (err kind) m = (refl, refl)
  send_state-fields (ok s) m = elim (send-cases (some (WorkerCommand.job s)) m.block_channel) [
    | inl (none_left, e) ↦ rw e (refl, refl)
    | inr (some_left, e) ↦ rw e (refl, refl)
  ]

  send_state-Handed :
      (made : Outcome (PowState B X)) (n : MinerManager B X) → Handed made n (send_state made n)
  unfolding Handed
  send_state-Handed panic n = (refl, refl)
  send_state-Handed (err kind) n = (refl, refl)
  send_state-Handed (ok s) n = elim (send-cases (some (WorkerCommand.job s)) n.block_channel) [
    | inl (none_left, e) ↦ rw e (inr (none_left, refl, refl))
    | inr (some_left, e) ↦ rw e (inl (some_left, refl, refl, refl))
  ]

  -- A block of the pool or of the node counts as a sign that the node is synchronized, and takes a
  -- state id, whatever comes of it. If it makes a state and a worker is left, the result is a value
  -- and the channel has this state under its next number, so that a worker that waits takes it. If
  -- no worker is left the result is an error, and if no state is made it is the error or the panic
  -- of that; the channel is then as it was.
  pub process_block-Handed :
      (blocks : RpcBlocks B) (generate : Uint256 → Option Matrix) (b : BlockSeed B X)
      (m : MinerManager B X)
      → ((process_block blocks generate (some b) m).manager.is_synced ≡ true)
        × ((process_block blocks generate (some b) m).manager.current_state_id
            ≡ increment m.current_state_id)
        × Handed
            (new_state blocks generate m.current_state_id b)
            m
            (process_block blocks generate (some b) m)
  unfolding process_block
  process_block-Handed blocks generate b m =
      let next = record m { is_synced = true; current_state_id = increment m.current_state_id } in
      let made = new_state blocks generate m.current_state_id b in
      let (synced, id) = send_state-fields made next in
      (
        synced,
        id,
        Handed-channel made m next (send_state made next) refl (send_state-Handed made next),
      )

  -- A block that makes a state, where a worker is left, is in the channel.
  pub process_block-made :
      (blocks : RpcBlocks B) (generate : Uint256 → Option Matrix) (b : BlockSeed B X)
      (m : MinerManager B X) (s : PowState B X)
      → new_state blocks generate m.current_state_id b ≡ ok s
      → 0 < m.block_channel.receivers_count
      → ((process_block blocks generate (some b) m).result ≡ ok tt)
        × ((process_block blocks generate (some b) m).manager.block_channel.value
            ≡ some (WorkerCommand.job s))
  unfolding process_block
  process_block-made blocks generate b m s made workers =
      elim (send-cases (some (WorkerCommand.job s)) m.block_channel) [
        | inl (none_left, e) ↦ absurd (omega (arith, none_left))
        | inr (some_left, e) ↦ rw (made, e) (refl, refl)
      ]

  -- The workers are told to pause, or there is none left and nothing is told; either is remembered,
  -- and no state id is taken.
  pub Paused : MinerManager B X → Handled B X → Type 0
  Paused m h =
      (h.manager.is_synced ≡ false)
      × (h.manager.current_state_id ≡ m.current_state_id)
      × (((0 < m.block_channel.receivers_count)
            × (h.result ≡ ok tt)
            × (h.manager.block_channel
                ≡ record (m.block_channel) { value = none; id = increment m.block_channel.id })
            × (take_waited (Result.done h.manager.block_channel.value) ≡ Next.goes_on none))
          ⊎ ((m.block_channel.receivers_count ≡ 0)
              × (h.result ≡ err ErrorKind.general)
              × (h.manager.block_channel ≡ m.block_channel)))

  paused :
      (blocks : RpcBlocks B) (generate : Uint256 → Option Matrix) (m : MinerManager B X)
      → m.is_synced ≡ true
      → Paused m (process_block blocks generate none m)
  unfolding process_block Paused
  paused blocks generate m synced = elim (send-cases none m.block_channel) [
    | inl (none_left, e) ↦ rw (synced, e) (refl, refl, inr (none_left, refl, refl))
    | inr (some_left, e) ↦ rw (synced, e) (refl, refl, inl (some_left, refl, refl, refl))
  ]

  ignored :
      (blocks : RpcBlocks B) (generate : Uint256 → Option Matrix) (m : MinerManager B X)
      → m.is_synced ≡ false
      → process_block blocks generate none m ≡ record { manager = m; result = ok tt }
  unfolding process_block
  ignored blocks generate m unsynced = rw unsynced refl

  -- A template without a block, of a node that is not synchronized, is ignored if the last one was
  -- too. Otherwise this is remembered, and no state id is taken; where a worker is left, the workers
  -- are told to pause under the next number of the channel, and where none is left the result is an
  -- error and the channel is as it was; a second such template is then ignored.
  pub process_block-none :
      (blocks : RpcBlocks B) (generate : Uint256 → Option Matrix) (m : MinerManager B X)
      → ((m.is_synced ≡ false)
          × (process_block blocks generate none m ≡ record { manager = m; result = ok tt }))
        ⊎ ((m.is_synced ≡ true)
            × Paused m (process_block blocks generate none m)
            × (process_block blocks generate none (process_block blocks generate none m).manager
                ≡ record {
                  manager = (process_block blocks generate none m).manager;
                  result = ok tt;
                }))
  unfolding Paused
  process_block-none blocks generate m = elim (Bool-cases m.is_synced) [
    | inl e ↦ let p = paused blocks generate m e in inr (e, p, ignored blocks generate _ p.0)
    | inr e ↦ inl (e, ignored blocks generate m e)
  ]
