-- ===== src/Miner/Found.antt =====
-- src/miner.rs: what a worker on the CPU finds, from the job on.
use kasop.Common.{
  ℕ, zero, suc, ◌+◌, ◌-◌, ◌*◌, ◌/◌, ◌%◌, ◌^◌, ◌≤◌, ◌<◌, Bool-cases, true, List, [], ◌∷◌, length,
  All, some, none, ok, ◌≡◌, refl, sym, ap, ap₂, ◌∙◌, subst, arith, inl, inr,
}
use mathlib.Core.List.{Memᴰ}
use native.Mathlib.Nat.{mod-lt, add-mod-mod, add-mul-mod_self_right, mod-eq_of_lt, div-add-mod}
use kasop.Common.Powers.{pow_pos}
use kasop.Target.{Uint256}
use kasop.Pow.{BlockSeed, PartialBlock, RpcBlocks, PowState, check_pow}
use kasop.Watch.{Result}
use kasop.Miner.{WorkerCommand, Next, CpuWorker, Answers, round_after_wait, cpu_round, cpu_rounds}
use kasop.Miner.Space.{tried_at}
use kasop.Miner.Searching.{IsQuiet, solution, solutions, nonces, on_job, cpu_rounds_lem}

-- The place of a nonce from another on.
abbrev distance : ℕ → ℕ → ℕ → ℕ
distance k n m = (m % 2 ^ k + (2 ^ k - n % 2 ^ k)) % 2 ^ k

distance-lt : (k n m : ℕ) → distance k n m < 2 ^ k
distance-lt k n m = mod-lt (m % 2 ^ k + (2 ^ k - n % 2 ^ k)) (pow_pos k)

tried_at-distance : (high k n m : ℕ) → m / 2 ^ k ≡ high → tried_at high k n (distance k n m) ≡ m
tried_at-distance high k n m h =
    let M = 2 ^ k in
    let split = div-add-mod n M in
    let whole = div-add-mod m M in
    let low = mod-lt n (pow_pos k) in
    let e : n + (m % M + (M - n % M)) ≡ m % M + (n / M + 1) * M = grind (arith, split, low) in
    let back : (n + distance k n m) % M ≡ m % M =
      add-mod-mod n (m % M + (M - n % M)) M
      ∙ rw e (add-mul-mod_self_right (m % M) (n / M + 1) M ∙ mod-eq_of_lt (mod-lt m (pow_pos k))) in
    ap (λ (t : ℕ). high * M + t) back
    ∙ (ap (λ (t : ℕ). t * M + m % M) (sym h) ∙ omega (arith, whole))

Memᴰ-nonces : (high k n i m j : ℕ) → j < m → Memᴰ (tried_at high k n (i + j)) (nonces high k n i m)
Memᴰ-nonces high k n i zero j h = absurd (omega arith)
Memᴰ-nonces high k n i (suc m) zero h =
    Memᴰ.head (ap (λ (t : ℕ). tried_at high k n t) (omega arith))
Memᴰ-nonces high k n i (suc m) (suc j) h =
    let e : i + 1 + j ≡ i + suc j = omega arith in
    Memᴰ.tail (
      subst (λ (t : ℕ). Memᴰ (tried_at high k n t) (nonces high k n (i + 1) m)) e
        (Memᴰ-nonces high k n (i + 1) m j (omega arith)))

module _ {B X : Type 0} (f1600 : List ℕ → List ℕ) (print : Uint256 → X) (s : PowState B X)
    (p : PartialBlock X) where
  Memᴰ-solutions :
      (ns : List ℕ) (n : ℕ)
      → Memᴰ n ns
      → check_pow f1600 s n ≡ true
      → Memᴰ (solution f1600 print s p n) (solutions f1600 print s p ns)
  Memᴰ-solutions [] n none_in good = elim none_in [ ]
  Memᴰ-solutions (m ∷ ns) n (Memᴰ.head e) good =
      rw (subst (λ (t : ℕ). check_pow f1600 s t ≡ true) e good)
        (Memᴰ.head (ap (λ (t : ℕ). solution f1600 print s p t) e))
  Memᴰ-solutions (m ∷ ns) n (Memᴰ.tail d) good = elim (Bool-cases (check_pow f1600 s m)) [
    | inl e ↦ rw e (Memᴰ.tail (Memᴰ-solutions ns n d good))
    | inr e ↦ rw e (Memᴰ-solutions ns n d good)
  ]

-- A worker without a job.
abbrev pub idle : {B X : Type 0} → ℕ → ℕ → ℕ → CpuWorker B X
idle n mask fixed = record { nonce = n; mask = mask; fixed = fixed; state = none }

-- A round in which a wait gives a job.
abbrev pub given : {B X : Type 0} → PowState B X → Answers B X
given s = record { waited = Result.done (some (WorkerCommand.job s)); changed = Result.done none }

module _ {B X : Type 0} (f1600 : List ℕ → List ℕ) (blocks : RpcBlocks B) (print : Uint256 → X)
    (s : PowState B X) (high k : ℕ) where
  round-given :
      s.nonce_mask ≡ 2 ^ k - 1
      → s.nonce_fixed ≡ high * 2 ^ k
      → (n mask fixed : ℕ)
      → cpu_round f1600 blocks print (given s) (idle n mask fixed)
        ≡ cpu_round f1600 blocks print (given s) (on_job s high k n)
  unfolding cpu_round
  round-given em ef n mask fixed =
      ap₂
        (λ m f.
          round_after_wait f1600 blocks print (Result.done none)
            (Next.goes_on (record { nonce = n; mask = m; fixed = f; state = some s })))
        em ef

  rounds-given :
      s.nonce_mask ≡ 2 ^ k - 1
      → s.nonce_fixed ≡ high * 2 ^ k
      → (inputs : List (Answers B X)) (n mask fixed : ℕ)
      → cpu_rounds f1600 blocks print (given s ∷ inputs) (idle n mask fixed)
        ≡ cpu_rounds f1600 blocks print (given s ∷ inputs) (on_job s high k n)
  unfolding cpu_rounds
  rounds-given em ef inputs n mask fixed = rw (round-given em ef n mask fixed) refl

  -- A job of a pool has a mask of the `k` low bits, `k` at most 64, and a fixed part above them. A
  -- worker without a job, whatever its nonce and its old mask and fixed part, that is given this
  -- job and hears of no other command for `2 ^ k` rounds, counting the first, goes on with the job
  -- and has sent the block of every nonce that has the fixed part and passes `check_pow`.
  pub cpu_rounds-finds :
      (p : PartialBlock X)
      → s.block ≡ BlockSeed.partial_block p
      → k ≤ 64
      → s.nonce_mask ≡ 2 ^ k - 1
      → s.nonce_fixed ≡ high * 2 ^ k
      → (inputs : List (Answers B X)) → All IsQuiet inputs
      → 2 ^ k ≤ suc (length inputs)
      → (n mask fixed good : ℕ) → good / 2 ^ k ≡ high
      → check_pow f1600 s good ≡ true
      → (sent : List (BlockSeed B X)) × (end : ℕ) × (cpu_rounds f1600 blocks print
            (given s ∷ inputs)
            (idle n mask fixed)
          ≡ ok (sent, Next.goes_on (on_job s high k end)))
        × Memᴰ (solution f1600 print s p good) sent
  cpu_rounds-finds p partial fits em ef inputs quiet enough n mask fixed good ours passes =
      let (end, e) =
        cpu_rounds_lem f1600 blocks print s p partial high k fits (given s ∷ inputs) (refl, quiet)
          n in
      let place = distance k n good in
      let near : place < suc (length inputs) = omega (arith, distance-lt k n good) in
      let there = Memᴰ-nonces high k n 0 (suc (length inputs)) place near in
      let zero_left : 0 + place ≡ place = omega arith in
      let here : tried_at high k n (0 + place) ≡ good =
        ap (λ (t : ℕ). tried_at high k n t) zero_left ∙ tried_at-distance high k n good ours in
      let found = subst (λ (t : ℕ). Memᴰ t (nonces high k n 0 (suc (length inputs)))) here there in
      (
        _,
        end,
        rounds-given em ef inputs n mask fixed ∙ e,
        Memᴰ-solutions f1600 print s p _ good found passes,
      )
