-- ===== src/Pow/Header.antt =====
-- src/pow.rs and proto/rpc.proto: the header of a block, the decoding of its hexadecimal texts, and
-- the bytes that are hashed; src/kaspad_messages.rs: the hash of a block. A text is a list of bytes.
-- The hash function of blake2b, keyed and of 32 bytes, is a parameter.
pub mod Hex
pub mod Layout
mod Parents
pub mod ReadBack
mod Tests
use kasop.Common.{
  not, ℕ, zero, suc, ◌+◌, ◌-◌, ◌*◌, ◌/◌, ◌%◌, ◌^◌, Bool, true, false, ◌&&◌, List, [], ◌∷◌, ◌++◌,
  Option, none, some, length, leb, ltb, ◌==◌, if◌then◌else◌, bit_or, Outcome, ok, err, panic,
  ErrorKind, ◌>>=◌,
}
use kasop.Target.{Uint256, word_to_le_bytes, from_le_bytes}

pub data FromHexError : Type 0 where
  odd_length : FromHexError
  invalid_string_length : FromHexError
  -- The character and its index.
  invalid_hex_character : ℕ → ℕ → FromHexError

pub data HexResult (A : Type 0) : Type 0 where
  decoded : A → HexResult A
  refused : FromHexError → HexResult A

abbrev pub and_then : {A B : Type 0} → HexResult A → (A → HexResult B) → HexResult B
and_then (decoded a) next = next a
and_then (refused e) next = refused e

abbrev pub is_between : ℕ → ℕ → ℕ → Bool
is_between low c high = leb low c && leb c high

-- `val`: the digit of a character.
unfoldable pub hex_val : ℕ → ℕ → HexResult ℕ
hex_val c idx =
    if is_between b'A' c b'F'
    then decoded (c - b'A' + 10)
    else if is_between b'a' c b'f'
    then decoded (c - b'a' + 10)
    else if is_between b'0' c b'9'
    then decoded (c - b'0')
    else refused (invalid_hex_character c idx)

-- The loop over the bytes, `i` being the index of the next character.
unfoldable pub decode_from : ℕ → List ℕ → HexResult (List ℕ)
unfolding hex_val
decode_from i (c ∷ d ∷ text) = and_then (hex_val c i) (λ high. and_then (hex_val d (i + 1)) (λ low.
    and_then (decode_from (i + 2) text)
      (λ bytes. decoded (bit_or (high * 2 ^ 4 % 2 ^ 8) low ∷ bytes))))
decode_from i (c ∷ []) = decoded []
decode_from i [] = decoded []

-- `decode_to_slice` into a slice of `n` bytes.
unfoldable pub decode_to_slice : List ℕ → ℕ → HexResult (List ℕ)
unfolding decode_from
decode_to_slice text n =
    if not (length text % 2 == 0)
    then refused odd_length
    else if not (length text / 2 == n)
    then refused invalid_string_length
    else decode_from 0 text

-- `unwrap`.
abbrev pub unwrap : {A : Type 0} → HexResult A → Outcome A
unwrap (decoded a) = ok a
unwrap (refused e) = panic

-- `RpcBlockHeader`; the parents are lists of hashes, and the time is its 64 bits.
pub record RpcBlockHeader : Type 0 where
  pub version : ℕ
  pub parents : List (List (List ℕ))
  pub hash_merkle_root : List ℕ
  pub accepted_id_merkle_root : List ℕ
  pub utxo_commitment : List ℕ
  pub timestamp : ℕ
  pub bits : ℕ
  pub nonce : ℕ
  pub daa_score : ℕ
  pub blue_work : List ℕ
  pub pruning_point : List ℕ
  pub blue_score : ℕ

abbrev pub decode_hash : List ℕ → Outcome (List ℕ)
decode_hash text = unwrap (decode_to_slice text 32)

-- What the hasher is given for the hashes of one level, and for all levels.
unfoldable pub serialize_hashes : List (List ℕ) → Outcome (List ℕ)
serialize_hashes [] = ok []
serialize_hashes (text ∷ texts) = do
  hash ← decode_hash text
  bytes ← serialize_hashes texts
  ok (hash ++ bytes)

unfoldable pub serialize_parents : List (List (List ℕ)) → Outcome (List ℕ)
unfolding serialize_hashes
serialize_parents [] = ok []
serialize_parents (parent ∷ parents) = do
  hashes ← serialize_hashes parent
  bytes ← serialize_parents parents
  ok (word_to_le_bytes 8 (length parent) ++ (hashes ++ bytes))

-- `try_into` and `unwrap`.
abbrev pub to_u16 : ℕ → Outcome ℕ
to_u16 version = if ltb version (2 ^ 16) then ok version else panic

-- The bytes of the work, with their number. More than 32 do not fit into the buffer.
unfoldable pub decode_blue_work : List ℕ → Outcome (List ℕ)
decode_blue_work text =
    let n = (length text + 1) / 2 in
    if ltb 32 n
    then panic
    else if length text % 2 == 0
    then unwrap (decode_to_slice text n)
    else unwrap (decode_to_slice (b'0' ∷ text) n)

-- `serialize_header`: what the hasher is given, one after the other.
unfoldable pub serialize_header : RpcBlockHeader → Bool → Outcome (List ℕ)
unfolding serialize_parents decode_blue_work
serialize_header header for_pre_pow = do
  let nonce = if for_pre_pow then 0 else header.nonce
  let timestamp = if for_pre_pow then 0 else header.timestamp
  version ← to_u16 header.version
  parents ← serialize_parents header.parents
  merkle_root ← decode_hash header.hash_merkle_root
  accepted_root ← decode_hash header.accepted_id_merkle_root
  utxo ← decode_hash header.utxo_commitment
  blue_work ← decode_blue_work header.blue_work
  pruning_point ← decode_hash header.pruning_point
  ok (
      word_to_le_bytes 2 version
      ++ (word_to_le_bytes 8 (length header.parents)
          ++ (parents
              ++ (merkle_root
                  ++ (accepted_root
                      ++ (utxo
                          ++ (word_to_le_bytes 8 timestamp
                              ++ (word_to_le_bytes 4 header.bits
                                  ++ (word_to_le_bytes 8 nonce
                                      ++ (word_to_le_bytes 8 header.daa_score
                                          ++ (word_to_le_bytes 8 header.blue_score
                                              ++ (word_to_le_bytes 8
                                                    ((length header.blue_work + 1) / 2)
                                                  ++ (blue_work ++ pruning_point)))))))))))))

pub record RpcBlock : Type 0 where
  pub header : Option RpcBlockHeader

module _ (blake2b : List ℕ → List ℕ) where
  -- `HeaderHasher`, given the bytes and finalized.
  unfoldable pub header_hash : RpcBlockHeader → Bool → Outcome Uint256
  header_hash header for_pre_pow =
      serialize_header header for_pre_pow >>= λ bytes. ok (from_le_bytes (blake2b bytes))

  -- `RpcBlock::block_hash`.
  unfoldable pub block_hash : RpcBlock → Outcome (Option Uint256)
  block_hash block = elim (block.header) [
    | none ↦ ok none
    | some header ↦ header_hash header false >>= λ hash. ok (some hash)
  ]
