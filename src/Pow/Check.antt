-- ===== src/Pow/Check.antt =====
-- src/pow.rs: when a nonce makes a block.
use kasop.Common.{
  >>=-eq-ok, Outcome, ok, err, panic, ErrorKind, Bool-cases, sym, Option, none, some, ℕ, ◌^◌, ◌-◌,
  ◌<◌, ◌≤◌, true, false, List, [], ◌∷◌, none, some, take, length, All, ◌≡◌, refl, ap, ◌∙◌, ◌⊎◌, inl,
  inr, compare-cases, arith,
}
use kasop.Target.{u256_from_compact_target, Uint256, IsUint256, value}
use kasop.Target.Order.{cmp-compare}
use kasop.Pow.HeavyHash.{Matrix}
use kasop.Pow.{
  BlockSeed, PartialBlock, RpcBlocks, state_of, new_state, with_nonce_in, PowState, is_le,
  is_not_greater, heavy_hash, heavy_hasher, calculate_pow, check_pow, generate_block_if_pow,
}

take_words : (ws : List ℕ) → length ws ≡ 25 → All (λ w. w < 2 ^ 64) ws → IsUint256 (take 4 ws)
take_words (a ∷ b ∷ c ∷ d ∷ ws) l (ha, (hb, (hc, (hd, h)))) = (ha, hb, hc, hd)
take_words (a ∷ b ∷ c ∷ []) l h = absurd (omega (arith, l))
take_words (a ∷ b ∷ []) l h = absurd (omega (arith, l))
take_words (a ∷ []) l h = absurd (omega (arith, l))
take_words [] l h = absurd (omega (arith, l))

is_le-cases :
    (a b : Uint256)
    → IsUint256 a
    → IsUint256 b
    → ((is_le a b ≡ true) × (value a ≤ value b)) ⊎ ((is_le a b ≡ false) × (value b < value a))
is_le-cases a b ha hb = elim (compare-cases (value a) (value b)) [
  | inl (e, h) ↦ inl (ap is_not_greater (cmp-compare a b ha hb ∙ e), omega arith)
  | inr (inl (e, h)) ↦ inl (ap is_not_greater (cmp-compare a b ha hb ∙ e), omega arith)
  | inr (inr (e, h)) ↦ inr (ap is_not_greater (cmp-compare a b ha hb ∙ e), h)
]

-- What the block is with the nonce in it.
abbrev pub solved : {B X : Type 0} → RpcBlocks B → ℕ → X → BlockSeed B X → BlockSeed B X
solved blocks nonce text (BlockSeed.full_block b) = BlockSeed.full_block (blocks.with_nonce nonce b)
solved blocks nonce text (BlockSeed.partial_block p) =
    BlockSeed.partial_block (record p { nonce = nonce; hash = some text })

module _ {B X : Type 0} (blocks : RpcBlocks B) where
  state_of-block :
      (id : ℕ) (seed : BlockSeed B X) (hash : Uint256) (time : ℕ) (target : Uint256)
      (mask fixed : ℕ) (m : Option Matrix) (s : PowState B X)
      → state_of blocks id seed hash time target mask fixed m ≡ ok s
      → s.block ≡ seed
  state_of-block id seed hash time target mask fixed none s h = absurd (cc)
  state_of-block id seed hash time target mask fixed (some matrix) s h = sym (ap block_of h)
    where
      block_of : Outcome (PowState B X) → BlockSeed B X
      block_of (ok t) = t.block
      block_of (err kind) = seed
      block_of panic = seed

  state_of-nonces :
      (id : ℕ) (seed : BlockSeed B X) (hash : Uint256) (time : ℕ) (target : Uint256)
      (mask fixed : ℕ) (m : Option Matrix) (s : PowState B X)
      → state_of blocks id seed hash time target mask fixed m ≡ ok s
      → (s.nonce_mask ≡ mask) × (s.nonce_fixed ≡ fixed)
  state_of-nonces id seed hash time target mask fixed none s h = absurd (cc)
  state_of-nonces id seed hash time target mask fixed (some matrix) s h =
      (sym (ap mask_of h), sym (ap fixed_of h))
    where
      mask_of : Outcome (PowState B X) → ℕ
      mask_of (ok t) = t.nonce_mask
      mask_of (err kind) = mask
      mask_of panic = mask

      fixed_of : Outcome (PowState B X) → ℕ
      fixed_of (ok t) = t.nonce_fixed
      fixed_of (err kind) = fixed
      fixed_of panic = fixed

  -- A state of a partial block has its mask and its fixed part.
  pub new_state-partial :
      (generate : Uint256 → Option Matrix) (id : ℕ) (p : PartialBlock X) (s : PowState B X)
      → new_state blocks generate id (BlockSeed.partial_block p) ≡ ok s
      → (s.block ≡ BlockSeed.partial_block p)
        × (s.nonce_mask ≡ p.nonce_mask)
        × (s.nonce_fixed ≡ p.nonce_fixed)
  unfolding new_state
  new_state-partial generate id p s h =
      let seed : BlockSeed B X = BlockSeed.partial_block p in
      let m = generate p.header_hash in
      let (mask, fixed) =
        state_of-nonces id seed p.header_hash p.timestamp p.target p.nonce_mask p.nonce_fixed m s
          h in
      (
        state_of-block id seed p.header_hash p.timestamp p.target p.nonce_mask p.nonce_fixed m s h,
        mask,
        fixed,
      )

  -- A block of a state that was made has a header.
  with_nonce_in-solved :
      (generate : Uint256 → Option Matrix) (id : ℕ) (seed : BlockSeed B X) (s : PowState B X)
      → new_state blocks generate id seed ≡ ok s
      → (nonce : ℕ) (text : X)
      → with_nonce_in blocks nonce text s.block ≡ ok (solved blocks nonce text s.block)
  unfolding new_state
  with_nonce_in-solved generate id (BlockSeed.full_block b) s h nonce text =
      elim (Bool-cases (blocks.has_header b)) [
        | inl e ↦
            let (hash, q, k) = >>=-eq-ok (blocks.pre_pow_hash b) _ (rw e at h) in
            let f =
              state_of-block id (BlockSeed.full_block b) hash (blocks.timestamp b)
                (u256_from_compact_target (blocks.bits b)) (2 ^ 64 - 1) 0 (generate hash) s k in
            rw f (rw e refl)
        | inr e ↦
            let k : ◌≡◌ {A = Outcome (PowState B X)} (err ErrorKind.general) (ok s) = rw e at h in
            absurd (cc)
      ]
  with_nonce_in-solved generate id (BlockSeed.partial_block p) s h nonce text =
      rw
        (state_of-block id (BlockSeed.partial_block p) p.header_hash p.timestamp p.target
          p.nonce_mask p.nonce_fixed (generate p.header_hash) s h)
        refl

module _ {B X : Type 0} where
  calculate_pow-IsUint256 :
      (f1600 : List ℕ → List ℕ)
      → ((ws : List ℕ) → (length (f1600 ws) ≡ 25) × All (λ w. w < 2 ^ 64) (f1600 ws))
      → (s : PowState B X) (nonce : ℕ) → IsUint256 (calculate_pow f1600 s nonce)
  unfolding calculate_pow heavy_hash heavy_hasher
  calculate_pow-IsUint256 f1600 law s nonce = let (l, a) = law _ in take_words _ l a

  -- With a permutation of 25 words of 64 bits and a state that `new_state` makes with a target of
  -- 256 bits: a nonce whose hash is at most the target gives the block with this nonce, and with the
  -- text of this hash if the block is partial; one whose hash is above the target gives none.
  pub generate_block_if_pow_lem :
      (f1600 : List ℕ → List ℕ)
      → ((ws : List ℕ) → (length (f1600 ws) ≡ 25) × All (λ w. w < 2 ^ 64) (f1600 ws))
      → (blocks : RpcBlocks B) (generate : Uint256 → Option Matrix) (id : ℕ) (seed : BlockSeed B X)
        (s : PowState B X) (nonce : ℕ) (print : Uint256 → X)
      → new_state blocks generate id seed ≡ ok s
      → IsUint256 s.target
      → ((value (calculate_pow f1600 s nonce) ≤ value s.target)
          × (generate_block_if_pow f1600 blocks s nonce print
              ≡ ok (some (solved blocks nonce (print (calculate_pow f1600 s nonce)) s.block))))
        ⊎ ((value s.target < value (calculate_pow f1600 s nonce))
            × (generate_block_if_pow f1600 blocks s nonce print ≡ ok none))
  unfolding generate_block_if_pow check_pow
  generate_block_if_pow_lem f1600 law blocks generate id seed s nonce print made h =
      let solve =
        with_nonce_in-solved blocks generate id seed s made nonce
          (print (calculate_pow f1600 s nonce)) in
      elim (is_le-cases (calculate_pow f1600 s nonce) s.target
        (calculate_pow-IsUint256 f1600 law s nonce) h) [
          | inl (e, p) ↦ inl (p, rw e (rw solve refl))
          | inr (e, p) ↦ inr (p, rw e refl)
        ]
