-- ===== src/Pow.antt =====
-- src/pow: the proof of work. `HeavyHash` models heavy_hash.rs; here are hasher.rs, whose permutation
-- `f1600` is assembly and a parameter, and the tests of pow.rs on a nonce.
pub mod Header
pub mod HeavyHash
mod Blocks
pub mod Check
mod Tests
use Prim.Native.Nat.{Ordering}
use kasop.Common.{
  Outcome, ok, err, panic, ErrorKind, ◌>>=◌, ◌^◌, ◌-◌, ℕ, Bool, true, false, List, [], ◌∷◌, ◌++◌,
  map, Option, none, some, take, set, get_or, bit_xor, if◌then◌else◌, replicate,
}
use kasop.Target.{Uint256, u256_from_compact_target, cmp, word_to_le_bytes, to_le_bytes}
use kasop.Pow.HeavyHash.{Matrix, xor_zip, heavy_product}

abbrev pub pow_initial_state : List ℕ
pow_initial_state =
    1242148031264380989 ∷ 3008272977830772284 ∷ 2188519011337848018 ∷ 1992179434288343456
    ∷ 8876506674959887717 ∷ 5399642050693751366 ∷ 1745875063082670864 ∷ 8605242046444978844
    ∷ 17936695144567157056 ∷ 3343109343542796272 ∷ 1123092876221303306 ∷ 4963925045340115282
    ∷ 17037383077651887893 ∷ 16629644495023626889 ∷ 12833675776649114147 ∷ 3784524041015224902
    ∷ 1082795874807940378 ∷ 13952716920571277634 ∷ 13411128033953605860 ∷ 15060696040649351053
    ∷ 9928834659948351306 ∷ 5237849264682708699 ∷ 12825353012139217522 ∷ 6706187291358897596
    ∷ 196324915476054915 ∷ []

abbrev pub heavy_initial_state : List ℕ
heavy_initial_state =
    4239941492252378377 ∷ 8746723911537738262 ∷ 8796936657246353646 ∷ 1272090201925444760
    ∷ 16654558671554924250 ∷ 8270816933120786537 ∷ 13907396207649043898 ∷ 6782861118970774626
    ∷ 9239690602118867528 ∷ 11582319943599406348 ∷ 17596056728278508070 ∷ 15212962468105129023
    ∷ 7812475424661425213 ∷ 3370482334374859748 ∷ 5690099369266491460 ∷ 8596393687355028144
    ∷ 570094237299545110 ∷ 9119540418498120711 ∷ 16901969272480492857 ∷ 13372017233735502424
    ∷ 14372891883993151831 ∷ 5171152063242093102 ∷ 10573107899694386186 ∷ 6096431547456407061
    ∷ 1592359455985097269 ∷ []

abbrev pub xor_at : ℕ → ℕ → List ℕ → List ℕ
xor_at i x state = set state i (bit_xor (get_or state i 0) x)

-- `PowHasher::new`.
unfoldable pub pow_hasher : Uint256 → ℕ → List ℕ
pow_hasher pre_pow_hash timestamp = xor_at 4 timestamp (xor_zip pow_initial_state pre_pow_hash)

-- What a partial block has, and the text of its hash, whose type is `X`.
pub record PartialBlock (X : Type 0) : Type 0 where
  pub id : X
  pub header_hash : Uint256
  pub timestamp : ℕ
  pub nonce : ℕ
  pub target : Uint256
  pub nonce_mask : ℕ
  pub nonce_fixed : ℕ
  pub hash : Option X

pub data BlockSeed (B X : Type 0) : Type 0 where
  full_block : B → BlockSeed B X
  partial_block : PartialBlock X → BlockSeed B X

-- What is read of a block of the node, and the hash of its header without the nonce and the time.
-- `Blocks` has those of proto/rpc.proto.
pub record RpcBlocks (B : Type 0) : Type 0 where
  pub has_header : B → Bool
  pub bits : B → ℕ
  pub timestamp : B → ℕ
  pub pre_pow_hash : B → Outcome Uint256
  pub with_nonce : ℕ → B → B

pub record PowState (B X : Type 0) : Type 0 where
  pub id : ℕ
  pub matrix : Matrix
  pub target : Uint256
  pub pow_hash_header : List ℕ
  pub block : BlockSeed B X
  pub hasher : List ℕ
  pub nonce_mask : ℕ
  pub nonce_fixed : ℕ

module _ {B X : Type 0} (blocks : RpcBlocks B) where
  -- The end of `State::new`, with the matrix that `generate` finds.
  abbrev pub state_of :
      ℕ → BlockSeed B X → Uint256 → ℕ → Uint256 → ℕ → ℕ → Option Matrix → Outcome (PowState B X)
  state_of id seed pre_pow_hash timestamp target mask fixed none = panic
  state_of id seed pre_pow_hash timestamp target mask fixed (some matrix) = ok (record {
    id = id;
    matrix = matrix;
    target = target;
    pow_hash_header = to_le_bytes pre_pow_hash ++ word_to_le_bytes 8 timestamp ++ replicate 32 0;
    block = seed;
    hasher = pow_hasher pre_pow_hash timestamp;
    nonce_mask = mask;
    nonce_fixed = fixed;
  })

  -- `State::new`. An argument is the search for a matrix; it panics where that finds none.
  unfoldable pub new_state : (Uint256 → Option Matrix) → ℕ → BlockSeed B X → Outcome (PowState B X)
  new_state generate id (BlockSeed.full_block b) =
      if blocks.has_header b
      then (blocks.pre_pow_hash b >>= λ pre_pow_hash.
          state_of id (BlockSeed.full_block b) pre_pow_hash (blocks.timestamp b)
            (u256_from_compact_target (blocks.bits b)) (2 ^ 64 - 1) 0 (generate pre_pow_hash))
      else err ErrorKind.general
  new_state generate id (BlockSeed.partial_block p) =
      state_of id (BlockSeed.partial_block p) p.header_hash p.timestamp p.target p.nonce_mask
        p.nonce_fixed (generate p.header_hash)

abbrev pub is_not_greater : Ordering → Bool
is_not_greater Ordering.gt = false
is_not_greater Ordering.eq = true
is_not_greater Ordering.lt = true

abbrev pub is_le : Uint256 → Uint256 → Bool
is_le a b = is_not_greater (cmp a b)

-- The block with the nonce, and with the text of the hash if it is partial.
abbrev pub with_nonce_in :
    {B X : Type 0} → RpcBlocks B → ℕ → X → BlockSeed B X → Outcome (BlockSeed B X)
with_nonce_in blocks nonce text (BlockSeed.full_block b) =
    if blocks.has_header b then ok (BlockSeed.full_block (blocks.with_nonce nonce b)) else panic
with_nonce_in blocks nonce text (BlockSeed.partial_block p) =
    ok (BlockSeed.partial_block (record p { nonce = nonce; hash = some text }))

module _ (f1600 : List ℕ → List ℕ) where
  unfoldable pub finalize_with_nonce : List ℕ → ℕ → Uint256
  finalize_with_nonce hasher nonce = take 4 (f1600 (xor_at 9 nonce hasher))

  -- `HeavyHasher::hash`.
  unfoldable pub heavy_hasher : Uint256 → Uint256
  heavy_hasher in_hash = take 4 (f1600 (xor_zip heavy_initial_state in_hash))

  unfoldable pub heavy_hash : Matrix → Uint256 → Uint256
  heavy_hash matrix hash = heavy_hasher (heavy_product matrix hash)

  module _ {B X : Type 0} (s : PowState B X) (nonce : ℕ) where
    unfoldable pub calculate_pow : Uint256
    calculate_pow = heavy_hash s.matrix (finalize_with_nonce s.hasher nonce)

    unfoldable pub check_pow : Bool
    check_pow = is_le calculate_pow s.target

  -- `print` is `format!("{:x}")`.
  unfoldable pub generate_block_if_pow :
      {B X : Type 0}
      → RpcBlocks B
      → PowState B X
      → ℕ
      → (Uint256 → X)
      → Outcome (Option (BlockSeed B X))
  generate_block_if_pow blocks s nonce print =
      let block = with_nonce_in blocks nonce (print (calculate_pow s nonce)) s.block in
      if check_pow s nonce then (block >>= λ b. ok (some b)) else ok none
