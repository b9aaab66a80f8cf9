-- ===== src/Miner/Searching.antt =====
-- src/miner.rs: the rounds of a worker on the CPU on a job of a pool, while no other job comes.
use kasop.Common.{
  ℕ, zero, suc, ◌+◌, ◌-◌, ◌*◌, ◌%◌, ◌^◌, ◌≤◌, Bool-cases, List, [], ◌∷◌, length, All, Option, none,
  some, ok, ◌>>=◌, if◌then◌else◌, ◌==◌, ◌≡◌, refl, sym, ap, ◌∙◌, arith, inl, inr,
}
use kasop.Target.{Uint256}
use kasop.Pow.{
  BlockSeed, PartialBlock, RpcBlocks, PowState, with_nonce_in, calculate_pow, check_pow,
  generate_block_if_pow,
}
use kasop.Watch.{Result}
use kasop.Miner.{
  WorkerCommand, Next, CpuWorker, Answers, cpu_round, cpu_rounds, search_round, next_nonce,
  look_for_change,
}
use kasop.Miner.Space.{tried_at, masked, tried_at_next}

-- No command comes in a round.
abbrev pub IsQuiet : {B X : Type 0} → Answers B X → Type 0
IsQuiet a = a.changed ≡ Result.done none

module _ {B X : Type 0} (f1600 : List ℕ → List ℕ) (print : Uint256 → X) (s : PowState B X)
    (p : PartialBlock X) where
  -- What a nonce makes of the block of a pool.
  abbrev pub solution : ℕ → BlockSeed B X
  solution n =
      BlockSeed.partial_block
        (record p { nonce = n; hash = some (print (calculate_pow f1600 s n)) })

  -- The solutions among nonces, in order.
  abbrev pub solutions : List ℕ → List (BlockSeed B X)
  solutions [] = []
  solutions (n ∷ ns) =
      let rest = solutions ns in if check_pow f1600 s n then solution n ∷ rest else rest

-- The nonces of `m` rounds from the round `i`.
abbrev pub nonces : ℕ → ℕ → ℕ → ℕ → ℕ → List ℕ
nonces high k n i zero = []
nonces high k n i (suc m) = tried_at high k n i ∷ nonces high k n (i + 1) m

-- A worker with a job, its mask of `k` bits and its fixed part.
abbrev pub on_job : {B X : Type 0} → PowState B X → ℕ → ℕ → ℕ → CpuWorker B X
on_job s high k n = record { nonce = n; mask = 2 ^ k - 1; fixed = high * 2 ^ k; state = some s }

module _ {B X : Type 0} where
  look_for_change-quiet :
      (changed : Result (Option (Option (WorkerCommand B X)))) (w : CpuWorker B X)
      → changed ≡ Result.done none
      → look_for_change changed w ≡ Next.goes_on w
  unfolding look_for_change
  look_for_change-quiet changed w quiet =
      rw quiet (elim (Bool-cases (w.nonce % 128 == 0)) [ inl e ↦ rw e refl | inr e ↦ rw e refl ])

module _ {B X : Type 0} (f1600 : List ℕ → List ℕ) (blocks : RpcBlocks B) (print : Uint256 → X)
    (s : PowState B X) (p : PartialBlock X) (partial : s.block ≡ BlockSeed.partial_block p)
    (high k : ℕ) (fits : k ≤ 64) where
  generate-partial :
      (n : ℕ)
      → generate_block_if_pow f1600 blocks s n print
        ≡ ok (if check_pow f1600 s n then some (solution f1600 print s p n) else none)
  unfolding generate_block_if_pow
  generate-partial n = elim (Bool-cases (check_pow f1600 s n)) [
    | inl e ↦ rw e (
        ap
          (λ b.
            (with_nonce_in blocks n (print (calculate_pow f1600 s n)) b >>= λ solved.
            ok (some solved)))
          partial)
    | inr e ↦ rw e refl
  ]

  one_round :
      (a : Answers B X)
      → IsQuiet a
      → (n : ℕ)
      → cpu_round f1600 blocks print a (on_job s high k n)
        ≡ ok (record {
          submitted =
              if check_pow f1600 s (tried_at high k n 0)
              then some (solution f1600 print s p (tried_at high k n 0))
              else none;
          hashes_tried = 1;
          next = Next.goes_on (on_job s high k ((tried_at high k n 0 + 1) % 2 ^ 64));
        })
  unfolding cpu_round search_round next_nonce
  one_round a quiet n =
      rw (masked high k n, generate-partial (tried_at high k n 0))
        (elim (Bool-cases (check_pow f1600 s (tried_at high k n 0))) [
          | inl e ↦ rw e (rw (look_for_change-quiet a.changed _ quiet) refl)
          | inr e ↦ rw e (rw (look_for_change-quiet a.changed _ quiet) refl)
        ])

  more_rounds :
      (inputs : List (Answers B X))
      → All IsQuiet inputs
      → (n i v : ℕ) → ((j : ℕ) → tried_at high k v j ≡ tried_at high k n (i + j))
      → (end : ℕ) × (cpu_rounds f1600 blocks print inputs (on_job s high k v)
          ≡ ok (
            solutions f1600 print s p (nonces high k n i (length inputs)),
            Next.goes_on (on_job s high k end),
          ))
  unfolding cpu_rounds
  more_rounds [] quiet n i v at_i = (v, refl)
  more_rounds (a ∷ inputs) (quiet_a, quiet) n i v at_i =
      let there = tried_at high k v 0 in
      let (end, e) = more_rounds inputs quiet n (i + 1) ((there + 1) % 2 ^ 64) (λ j.
        let e : i + (j + 1) ≡ i + 1 + j = omega arith in
        tried_at_next high k v j fits ∙ at_i (j + 1) ∙ ap (λ (t : ℕ). tried_at high k n t) e) in
      let zero_right : i + 0 ≡ i = omega arith in
      let here : there ≡ tried_at high k n i =
        at_i 0 ∙ ap (λ (t : ℕ). tried_at high k n t) zero_right in
      (
        end,
        rw (one_round a quiet_a v, e, sym here)
            (elim (Bool-cases (check_pow f1600 s there)) [ inl c ↦ rw c refl | inr c ↦ rw c refl ]),
      )

  -- On a job of a pool whose fixed part starts where its mask of `k` bits ends, with `k` at most 64:
  -- a worker that hears of no other command sends in `m` rounds exactly the blocks of the nonces
  -- that pass `check_pow` among the `m` it tries, in order, and goes on with the job; the nonces
  -- have the fixed part, and below it their places from its first nonce on, which wrap at `2 ^ k`.
  pub cpu_rounds_lem :
      (inputs : List (Answers B X))
      → All IsQuiet inputs
      → (n : ℕ)
      → (end : ℕ) × (cpu_rounds f1600 blocks print inputs (on_job s high k n)
          ≡ ok (
            solutions f1600 print s p (nonces high k n 0 (length inputs)),
            Next.goes_on (on_job s high k end),
          ))
  cpu_rounds_lem inputs quiet n =
      more_rounds inputs quiet n 0 n (λ j. ap (λ (t : ℕ). tried_at high k n t) (omega arith))
