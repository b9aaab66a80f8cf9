-- ===== src/Io/ExtWorkId.antt =====
-- src/io/ext_work_id.rs: the address of a midstate, in 16 bits. A failed `assert!` is `panic`.
use kasop.Common.{ℕ, zero, suc, ◌-◌, ◌*◌, ◌/◌, ◌%◌, ◌^◌, ◌≤◌, ◌<◌, bit_and, bit_or, Outcome, ok}
use kasop.Common.{assert, ◌>>◌, ltb, lt→ltb, ◌≡◌, arith}
use kasop.Common.Bits.Fields.{or_as_sum, mask_as_mod}
use kasop.Bm1387.Midstate.{MidstateCount, to_count, to_bits, to_mask, IsMidstateCount}

pub record ExtWorkId : Type 0 where
  pub work_id : ℕ
  pub midstate_idx : ℕ

abbrev pub ext_work_id_count : ℕ
ext_work_id_count = 0x10000

unfoldable pub get_work_id_count : MidstateCount → ℕ
get_work_id_count m = ext_work_id_count / 2 ^ to_bits m

pub from_hw : MidstateCount → ℕ → Outcome ExtWorkId
from_hw m ext_id = do
  assert (ltb ext_id ext_work_id_count)
  ok (record { work_id = ext_id / 2 ^ to_bits m; midstate_idx = bit_and ext_id (to_mask m) })

pub to_hw : ExtWorkId → MidstateCount → Outcome ℕ
unfolding get_work_id_count
to_hw w m = do
  assert (ltb w.work_id (get_work_id_count m))
  assert (ltb w.midstate_idx (to_count m))
  ok (bit_or (w.work_id * 2 ^ to_bits m) w.midstate_idx % 2 ^ 32)

-- The three numbers of midstates, one by one.
write_read :
    (k work idx : ℕ)
    → k ≤ 2
    → work < ext_work_id_count / 2 ^ k
    → idx < 2 ^ k
    → let hw = bit_or (work * 2 ^ k) idx % 2 ^ 32 in
      (hw < ext_work_id_count) × (hw / 2 ^ k ≡ work) × (bit_and hw (2 ^ k - 1) ≡ idx)
write_read zero work idx h p q = rw (or_as_sum 0 work idx q, mask_as_mod 0) (omega arith)
write_read (suc zero) work idx h p q = rw (or_as_sum 1 work idx q, mask_as_mod 1) (omega arith)
write_read (suc (suc zero)) work idx h p q =
    rw (or_as_sum 2 work idx q, mask_as_mod 2) (omega arith)
write_read (suc (suc (suc k))) work idx h p q = absurd (omega arith)

read_write :
    (k ext : ℕ)
    → k ≤ 2
    → ext < ext_work_id_count
    → (ext / 2 ^ k < ext_work_id_count / 2 ^ k)
      × (bit_and ext (2 ^ k - 1) < 2 ^ k)
      × (bit_or (ext / 2 ^ k * 2 ^ k) (bit_and ext (2 ^ k - 1)) % 2 ^ 32 ≡ ext)
read_write zero ext h p =
    rw (mask_as_mod 0 ext, or_as_sum 0 (ext / 2 ^ 0) (ext % 2 ^ 0) (omega arith)) (omega arith)
read_write (suc zero) ext h p =
    rw (mask_as_mod 1 ext, or_as_sum 1 (ext / 2 ^ 1) (ext % 2 ^ 1) (omega arith)) (omega arith)
read_write (suc (suc zero)) ext h p =
    rw (mask_as_mod 2 ext, or_as_sum 2 (ext / 2 ^ 2) (ext % 2 ^ 2) (omega arith)) (omega arith)
read_write (suc (suc (suc k))) ext h p = absurd (omega arith)

-- Every pair of a work id and a midstate index in range is written as a 16-bit number, and that
-- number reads back as the pair.
pub from_hw-to_hw :
    (m : MidstateCount) (w : ExtWorkId)
    → IsMidstateCount m
    → w.work_id < get_work_id_count m
    → w.midstate_idx < to_count m
    → (hw : ℕ) × (to_hw w m ≡ ok hw) × (hw < ext_work_id_count) × (from_hw m hw ≡ ok w)
unfolding from_hw to_hw
from_hw-to_hw m w v fits inside =
    let facts = write_read m.log2 w.work_id w.midstate_idx v fits inside in
    (
      bit_or (w.work_id * 2 ^ m.log2) w.midstate_idx % 2 ^ 32,
      rw (lt→ltb _ _ fits, lt→ltb _ _ inside),
      facts.0,
      rw (lt→ltb _ _ facts.0, facts.1, facts.2),
    )

-- Every 16-bit number reads as a pair in range, which is written as that number again.
pub to_hw-from_hw :
    (m : MidstateCount) (ext_id : ℕ)
    → IsMidstateCount m
    → ext_id < ext_work_id_count
    → (w : ExtWorkId) × (from_hw m ext_id ≡ ok w)
      × (w.work_id < get_work_id_count m)
      × (w.midstate_idx < to_count m)
      × (to_hw w m ≡ ok ext_id)
unfolding from_hw to_hw
to_hw-from_hw m ext_id v h =
    let facts = read_write m.log2 ext_id v h in
    (
      record { work_id = ext_id / 2 ^ m.log2; midstate_idx = bit_and ext_id (2 ^ m.log2 - 1) },
      rw (lt→ltb _ _ h),
      facts.0,
      facts.1,
      rw (lt→ltb _ _ facts.0, lt→ltb _ _ facts.1, facts.2),
    )
