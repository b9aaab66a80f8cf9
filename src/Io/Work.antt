-- ===== src/Io/Work.antt =====
-- `WorkRx`, `WorkTx` and the fifos below them in src/io.rs: solutions that come in, and work that goes
-- out. Only the id of a work is sent, as in the source.
use kasop.Common.{
  ℕ, ◌/◌, ◌%◌, ◌^◌, ◌<◌, bit_and, Outcome, ok, assert, ◌==◌, ◌>>=◌ as andThen, ◌≡◌, ap, arith, ◌∙◌,
}
use kasop.Common.Actions.{Action, ◌>>=◌, return, lift}
use kasop.Common.Bits.Fields.{mask_as_mod}
use kasop.Bm1387.Midstate.{MidstateCount, to_count, IsMidstateCount}
use kasop.Io.ExtWorkId.{
  ExtWorkId, ext_work_id_count, get_work_id_count, from_hw, to_hw, to_hw-from_hw,
}

pub record Solution : Type 0 where
  pub nonce : ℕ
  pub midstate_idx : ℕ
  pub solution_idx : ℕ
  pub hardware_id : ℕ

pub record WorkRxResponse : Type 0 where
  pub nonce : ℕ
  pub work_id : ℕ
  pub midstate_idx : ℕ
  pub solution_idx : ℕ

unfoldable pub parsed : ℕ → ℕ → ExtWorkId → WorkRxResponse
parsed word1 solution_idx w = record {
  nonce = word1;
  work_id = w.work_id;
  midstate_idx = w.midstate_idx;
  solution_idx = solution_idx;
}

abbrev pub map_outcome : {A C : Type 0} → (A → C) → Outcome A → Outcome C
map_outcome f o = andThen o (λ a. ok (f a))

-- `WorkRxResponse::from_hw`.
unfoldable pub response_from_hw : MidstateCount → ℕ → ℕ → Outcome WorkRxResponse
unfolding parsed
response_from_hw m word1 word2 =
    map_outcome (parsed word1 (bit_and word2 0xff)) (from_hw m (bit_and (word2 / 2 ^ 8) 0xffff))

unfoldable pub solution_of : WorkRxResponse → Solution
solution_of r = record {
  nonce = r.nonce;
  midstate_idx = r.midstate_idx;
  solution_idx = r.solution_idx;
  hardware_id = r.work_id % 2 ^ 32;
}

-- The fifos: `async_read` of `WorkRxFifo`, and `write` of `WorkTxFifo`.
pub record WorkFifos (F : Type 0) : Type 0 where
  pub async_read : Action F ℕ
  pub write : ℕ → Action F (Unit {0})

module _ {F : Type 0} (fifos : WorkFifos F) (midstate_count : MidstateCount) where
  unfoldable pub recv_solution : Action F Solution
  unfolding response_from_hw solution_of
  recv_solution = do
    word1 ← fifos.async_read
    word2 ← fifos.async_read
    resp ← lift (response_from_hw midstate_count word1 word2)
    return (solution_of resp)

  unfoldable pub send_work : ℕ → Action F (Unit {0})
  send_work work_id = do
    hw ← lift (to_hw (record { work_id = work_id; midstate_idx = 0 }) midstate_count)
    fifos.write hw

unfoldable pub assert_midstate_count : MidstateCount → ℕ → Outcome (Unit {0})
assert_midstate_count m expected = assert (expected == to_count m)

unfoldable pub work_id_count : MidstateCount → ℕ
work_id_count m = get_work_id_count m

low_bits : (word2 : ℕ) → bit_and (word2 / 2 ^ 8) 0xffff < ext_work_id_count
low_bits word2 = rw (mask_as_mod 16 (word2 / 2 ^ 8)) (omega arith)

-- A response is parsed without a panic: its work id and midstate are in range, and are those that the
-- 16 bits above the lowest byte of the second word stand for; the lowest byte is the index of the
-- solution, and the first word is the nonce.
pub response_from_hw-to_hw :
    (m : MidstateCount) (word1 word2 : ℕ)
    → IsMidstateCount m
    → (w : ExtWorkId) × (response_from_hw m word1 word2 ≡ ok (parsed word1 (word2 % 2 ^ 8) w))
      × (w.work_id < get_work_id_count m)
      × (w.midstate_idx < to_count m)
      × (to_hw w m ≡ ok (word2 / 2 ^ 8 % 2 ^ 16))
unfolding response_from_hw
response_from_hw-to_hw m word1 word2 known =
    let (w, read, small, idx, back) =
      to_hw-from_hw m (bit_and (word2 / 2 ^ 8) 0xffff) known (low_bits word2) in
    (
      w,
      rw read (ap (λ (s : ℕ). ok (parsed word1 s w)) (mask_as_mod 8 word2)),
      small,
      idx,
      back ∙ ap ok (mask_as_mod 16 (word2 / 2 ^ 8)),
    )
