-- ===== src/Miner/Stale.antt =====
-- src/miner.rs: a job that comes while a worker on the CPU has another.
use kasop.Common.{
  ℕ, zero, suc, ◌+◌, ◌*◌, ◌/◌, ◌%◌, ◌^◌, ◌≤◌, Bool-cases, true, List, [], ◌∷◌, length, All, some,
  ok, ◌==◌, ◌≡◌, refl, ◌∙◌, arith, inl, inr,
}
use native.Mathlib.Nat.{mod-lt, div-eq_of_lt, add-mul-div_right}
use kasop.Common.Powers.{pow_pos}
use kasop.Target.{Uint256}
use kasop.Pow.{BlockSeed, PartialBlock, RpcBlocks, PowState, check_pow}
use kasop.Watch.{Result}
use kasop.Miner.{WorkerCommand, Next, Answers, look_for_change, cpu_rounds}
use kasop.Miner.Space.{tried_at}
use kasop.Miner.Searching.{IsQuiet, solution, solutions, nonces, on_job, cpu_rounds_lem}

tried_at-part : (high k n i : ℕ) → tried_at high k n i / 2 ^ k ≡ high
tried_at-part high k n i =
    let low = mod-lt (n + i) (pow_pos k) in
    let e : high * 2 ^ k + (n + i) % 2 ^ k ≡ (n + i) % 2 ^ k + high * 2 ^ k = omega arith in
    rw e (add-mul-div_right ((n + i) % 2 ^ k) high (pow_pos k) ∙ omega (arith, div-eq_of_lt low))

nonces-part : (high k n i m : ℕ) → All (λ x. x / 2 ^ k ≡ high) (nonces high k n i m)
nonces-part high k n i zero = tt
nonces-part high k n i (suc m) = (tried_at-part high k n i, nonces-part high k n (i + 1) m)

module _ {B X : Type 0} (f1600 : List ℕ → List ℕ) (print : Uint256 → X) (s : PowState B X)
    (p : PartialBlock X) (P : ℕ → Type 0) where
  -- The block is that of a nonce with the property.
  abbrev pub IsWith : BlockSeed B X → Type 0
  IsWith b = (nonce : ℕ) × (b ≡ solution f1600 print s p nonce) × P nonce

  solutions-All : (ns : List ℕ) → All P ns → All IsWith (solutions f1600 print s p ns)
  solutions-All [] h = tt
  solutions-All (n ∷ ns) (hn, h) = elim (Bool-cases (check_pow f1600 s n)) [
    | inl e ↦ rw e ((n, refl, hn), solutions-All ns h)
    | inr e ↦ rw e (solutions-All ns h)
  ]

module _ {B X : Type 0} (f1600 : List ℕ → List ℕ) (blocks : RpcBlocks B) (print : Uint256 → X)
    (old new : PowState B X) (high k : ℕ) where
  -- A worker on a job, with a mask of `k` bits, `k` at most 64, and the fixed part `high` above it,
  -- looks for a change when its nonce is a multiple of 128. If it is given a job of a pool there, it
  -- takes the job, but not its mask and its fixed part: whatever these are, all that it sends in
  -- the rounds before the next command are blocks of the new job with nonces of the old part.
  pub look_for_change-keeps :
      (p : PartialBlock X)
      → new.block ≡ BlockSeed.partial_block p
      → k ≤ 64
      → (n : ℕ) → n % 128 ≡ 0
      → (inputs : List (Answers B X)) → All IsQuiet inputs
      → (look_for_change (Result.done (some (some (WorkerCommand.job new)))) (on_job old high k n)
          ≡ Next.goes_on (on_job new high k n))
        × (sent : List (BlockSeed B X)) × (end : ℕ) × (cpu_rounds f1600 blocks print inputs
              (on_job new high k n)
            ≡ ok (sent, Next.goes_on (on_job new high k end)))
        × All (IsWith f1600 print new p (λ nonce. nonce / 2 ^ k ≡ high)) sent
  unfolding look_for_change
  look_for_change-keeps p partial fits n due inputs quiet =
      let (end, e) = cpu_rounds_lem f1600 blocks print new p partial high k fits inputs quiet n in
      let due_test : (n % 128 == 0) ≡ true = ground (arith, due) in
      (
        rw due_test refl,
        _,
        end,
        e,
        solutions-All f1600 print new p (λ nonce. nonce / 2 ^ k ≡ high) _
            (nonces-part high k n 0 (length inputs)),
      )
