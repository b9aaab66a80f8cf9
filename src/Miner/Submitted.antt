-- ===== src/Miner/Submitted.antt =====
-- src/miner.rs: what the workers send is a block whose nonce passes the test of its job.
use kasop.Common.{
  ℕ, List, [], ◌∷◌, get_elem?, Bool, Bool-cases, true, false, Option, Option-cases, none, some,
  Outcome, ok, err, panic, expect, ◌>>=◌, >>=-eq-ok, ◌==◌, ◌≡◌, refl, ap, sym, ◌∙◌, inl, inr,
}
use kasop.Target.{Uint256}
use kasop.Pow.{
  BlockSeed, RpcBlocks, PowState, with_nonce_in, calculate_pow, check_pow, generate_block_if_pow,
}
use kasop.Miner.{Next, Round}
use kasop.Miner.Gpu.{
  GpuAnswers, nothing_sent, first_block, after_search, end_of_round, with_output, gpu_after_wait,
  waited_state, gpu_round,
}

module _ {B X : Type 0} (f1600 : List ℕ → List ℕ) (blocks : RpcBlocks B) (print : Uint256 → X) where
  -- The nonce passes the test of the state, and the block has it.
  pub record IsSolved (s : PowState B X) (b : BlockSeed B X) (nonce : ℕ) : Type 0 where
    pub passes : check_pow f1600 s nonce ≡ true
    pub made : with_nonce_in blocks nonce (print (calculate_pow f1600 s nonce)) s.block ≡ ok b

  pub generate-IsSolved :
      (s : PowState B X) (nonce : ℕ) (b : BlockSeed B X)
      → generate_block_if_pow f1600 blocks s nonce print ≡ ok (some b)
      → IsSolved s b nonce
  unfolding generate_block_if_pow
  generate-IsSolved s nonce b h = elim (Bool-cases (check_pow f1600 s nonce)) [
    | inl e ↦
        let (solved, p, q) = >>=-eq-ok _ _ (rw e at h) in
        let get : Outcome (Option (BlockSeed B X)) → Outcome (BlockSeed B X) =
          λ o. (o >>= expect) in
        record { passes = e; made = p ∙ ap get q }
    | inr e ↦
        let k : ◌≡◌ {A = Outcome (Option (BlockSeed B X))} (ok none) (ok (some b)) = rw e at h in
        absurd (cc)
  ]

  first_block-IsSolved :
      (s : PowState B X) (nonces : List ℕ) (b : BlockSeed B X)
      → first_block f1600 blocks print s nonces ≡ ok (some b)
      → (nonce : ℕ) × IsSolved s b nonce
  unfolding first_block
  first_block-IsSolved s [] b h = absurd (cc)
  first_block-IsSolved s (nonce ∷ nonces) b h =
      let (found, p, q) = >>=-eq-ok (generate_block_if_pow f1600 blocks s nonce print) _ h in
      elim (Option-cases found) [
        | inl e ↦ first_block-IsSolved s nonces b (rw e at q)
        | inr (c, e) ↦
            let same : ◌≡◌ {A = Outcome (Option (BlockSeed B X))} (ok (some c)) (ok (some b)) =
              rw e at q in
            (nonce, generate-IsSolved s nonce b (p ∙ ap ok e ∙ same))
      ]

  abbrev submitted_of : Outcome (Round B X (Option (PowState B X))) → Option (BlockSeed B X)
  submitted_of (ok r) = r.submitted
  submitted_of (err kind) = none
  submitted_of panic = none

  -- A round that sends has the block that was found.
  after_search-sends :
      (otherwise : Round B X (Option (PowState B X))) (workload : ℕ) (s : PowState B X)
      (found : Option (BlockSeed B X)) (r : Round B X (Option (PowState B X))) (b : BlockSeed B X)
      → otherwise.submitted ≡ none
      → after_search otherwise workload s found ≡ ok r
      → r.submitted ≡ some b
      → found ≡ some b
  after_search-sends otherwise workload s none r b silent h sends =
      sym silent ∙ ap submitted_of h ∙ sends
  after_search-sends otherwise workload s (some c) r b silent h sends = ap submitted_of h ∙ sends

  module _ (workload : ℕ) (answers : GpuAnswers B X) where
    -- A round on a state sends a block only if it is solved.
    round_on :
        (requires_filter : Bool) (s : PowState B X) (output : Outcome (List ℕ))
        (r : Round B X (Option (PowState B X))) (b : BlockSeed B X)
        → with_output f1600 blocks print workload answers requires_filter s output ≡ ok r
        → r.submitted ≡ some b
        → (nonce : ℕ) × IsSolved s b nonce
    round_on requires_filter s panic r b h sends = absurd (cc)
    round_on requires_filter s (err kind) r b h sends =
        let wrong : none ≡ some b = ap submitted_of h ∙ sends in absurd (cc)
    round_on true s (ok nonces) r b h sends =
        let (found, p, q) = >>=-eq-ok (first_block f1600 blocks print s nonces) _ h in
        let e =
          after_search-sends (end_of_round workload answers s) workload s found r b refl q sends in
        first_block-IsSolved s nonces b (p ∙ ap ok e)
    round_on false s (ok nonces) r b h sends =
        let (nonce, first, one) = >>=-eq-ok (expect (get_elem? nonces 0)) _ h in
        elim (Bool-cases (nonce == 0)) [
          | inl e ↦ let wrong : none ≡ some b = ap submitted_of (rw e at one) ∙ sends in absurd (cc)
          | inr e ↦
              let (found, p, q) =
                >>=-eq-ok (generate_block_if_pow f1600 blocks s nonce print) _ (rw e at one) in
              let f =
                after_search-sends (nothing_sent (Next.stopped (ok tt))) workload s found r b refl q
                  sends in
              (nonce, generate-IsSolved s nonce b (p ∙ ap ok f))
        ]

    after_wait :
        (requires_filter : Bool) (next : Next (Option (PowState B X)))
        (r : Round B X (Option (PowState B X))) (b : BlockSeed B X)
        → gpu_after_wait f1600 blocks print workload answers requires_filter next ≡ ok r
        → r.submitted ≡ some b
        → (s : PowState B X) × (next ≡ Next.goes_on (some s)) × (nonce : ℕ) × IsSolved s b nonce
    after_wait requires_filter (Next.stopped result) r b h sends =
        let wrong : none ≡ some b = ap submitted_of h ∙ sends in absurd (cc)
    after_wait requires_filter (Next.goes_on none) r b h sends =
        let wrong : none ≡ some b = ap submitted_of h ∙ sends in absurd (cc)
    after_wait requires_filter (Next.goes_on (some s)) r b h sends =
        let (nonce, solved) = round_on requires_filter s answers.output r b h sends in
        (s, refl, nonce, solved)

    -- Whatever a plugin gives, a round that sends a block has a state, that it had or that a job
    -- brought, and the block is that of the state with a nonce that passes the test of the state,
    -- and with the text of its hash if it is partial.
    pub gpu_round-IsSolved :
        (requires_filter : Bool) (state : Option (PowState B X))
        (r : Round B X (Option (PowState B X))) (b : BlockSeed B X)
        → gpu_round f1600 blocks print workload answers requires_filter state ≡ ok r
        → r.submitted ≡ some b
        → (s : PowState B X) × (waited_state answers state ≡ Next.goes_on (some s))
          × (nonce : ℕ) × IsSolved s b nonce
    unfolding gpu_round
    gpu_round-IsSolved requires_filter state r b h sends =
        after_wait requires_filter (waited_state answers state) r b h sends
