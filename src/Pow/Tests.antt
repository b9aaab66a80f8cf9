-- ===== src/Pow/Tests.antt =====
-- Tests of the proof of work, and the theorems at concrete inputs.
use kasop.Common.{
  ℕ, zero, suc, ◌^◌, ◌-◌, ◌%◌, ◌<◌, ◌≤◌, List, [], ◌∷◌, length, All, replicate, get_or, none, some,
  ◌≡◌, refl, arith, ◌⊎◌,
}
use kasop.Common.{ok, err, ErrorKind, ◌++◌, true, Option, some, ◌-◌, false}
use kasop.Target.{word_to_le_bytes, Uint256, value, to_le_bytes}
use kasop.Xoshiro.{State}
use kasop.Pow.{
  BlockSeed, RpcBlocks, PartialBlock, PowState, new_state, pow_hasher, calculate_pow,
  generate_block_if_pow,
}
use kasop.Pow.HeavyHash.{Matrix, new_generator, rand_matrix_no_rank_check, half_bytes, product}
use kasop.Pow.HeavyHash.Product.{exact, rand_matrix_no_rank_check-All, product-exact}
use kasop.Pow.Check.{generate_block_if_pow_lem}

abbrev four_words : Uint256
four_words = 1 ∷ 2 ∷ 3 ∷ 2 ^ 63 ∷ []

abbrev generator : State
generator = new_generator four_words

abbrev matrix : Matrix
matrix = (rand_matrix_no_rank_check generator).1

product-exact_example :
    product matrix (half_bytes (to_le_bytes four_words))
    ≡ exact matrix (half_bytes (to_le_bytes four_words))
product-exact_example =
    product-exact matrix four_words ((rand_matrix_no_rank_check-All generator).1)

-- In place of the permutation: the word at the place of the nonce, 25 times.
abbrev nonce_words : List ℕ → List ℕ
nonce_words ws = replicate 25 (get_or ws 9 0 % 2 ^ 64)

all_words : (n w : ℕ) → w < 2 ^ 64 → All (λ x. x < 2 ^ 64) (replicate n w)
all_words zero w h = tt
all_words (suc n) w h = (h, all_words n w h)

nonce_words_lem :
    (ws : List ℕ) → (length (nonce_words ws) ≡ 25) × All (λ w. w < 2 ^ 64) (nonce_words ws)
nonce_words_lem ws = (refl, all_words 25 (get_or ws 9 0 % 2 ^ 64) (omega arith))

abbrev seed : PartialBlock ℕ
seed = record {
  id = 1;
  header_hash = four_words;
  timestamp = 5435345234;
  nonce = 0;
  target = four_words;
  nonce_mask = 2 ^ 64 - 1;
  nonce_fixed = 0;
  hash = none;
}

abbrev four : ℕ
four = 4

-- Blocks that are a nonce, with a header.
abbrev nonce_blocks : RpcBlocks ℕ
nonce_blocks = record {
  has_header = λ b. true;
  bits = λ b. 0x1d00ffff;
  timestamp = λ b. 5435345234;
  pre_pow_hash = λ b. ok four_words;
  with_nonce = λ nonce b. nonce;
}

abbrev find : Uint256 → Option Matrix
find hash = some matrix

abbrev pow_state : PowState ℕ ℕ
pow_state = record {
  id = 1;
  matrix = matrix;
  target = four_words;
  pow_hash_header = to_le_bytes four_words ++ word_to_le_bytes 8 5435345234 ++ replicate 32 0;
  block = BlockSeed.partial_block seed;
  hasher = pow_hasher four_words 5435345234;
  nonce_mask = 2 ^ 64 - 1;
  nonce_fixed = 0;
}

made : new_state nonce_blocks find 1 (BlockSeed.partial_block seed) ≡ ok pow_state
unfolding new_state
made = refl

-- A block without a header has no state.
no_header :
    new_state {X = ℕ}
      (record nonce_blocks { has_header = λ b. false })
      find
      1
      (BlockSeed.full_block four)
    ≡ err ErrorKind.general
unfolding new_state
no_header = refl

abbrev lowest : Uint256 → ℕ
lowest hash = get_or hash 0 0

generate_block_if_pow_example :
    ((value (calculate_pow nonce_words pow_state 432432432) ≤ value four_words)
      × (generate_block_if_pow nonce_words nonce_blocks pow_state 432432432 lowest
          ≡ ok (
              some (
                BlockSeed.partial_block (record seed {
                  nonce = 432432432;
                  hash = some (lowest (calculate_pow nonce_words pow_state 432432432));
                })))))
    ⊎ ((value four_words < value (calculate_pow nonce_words pow_state 432432432))
        × (generate_block_if_pow nonce_words nonce_blocks pow_state 432432432 lowest ≡ ok none))
generate_block_if_pow_example =
    generate_block_if_pow_lem nonce_words nonce_words_lem nonce_blocks find 1
      (BlockSeed.partial_block seed) pow_state 432432432 lowest made
      (omega arith, omega arith, omega arith, omega arith)
