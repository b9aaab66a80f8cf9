-- ===== src/Pow/Header/Tests.antt =====
-- Tests of the serialization of headers, and the theorems at concrete inputs.
use kasop.Common.{
  ℕ, ◌+◌, ◌*◌, ◌%◌, ◌≢◌, true, false, List, [], ◌∷◌, ◌++◌, some, none, replicate, length, ◌≡◌, refl,
  ◌⊎◌, ok, panic, Outcome, arith,
}
use kasop.Target.{word_to_le_bytes}
use kasop.Pow.Header.{
  RpcBlockHeader, odd_length, invalid_string_length, invalid_hex_character, refused,
  decode_to_slice, serialize_header, block_hash,
}
use kasop.Pow.Header.Hex.{Decoded, BadAt, to_hex, decode_to_slice_lem}
use kasop.Pow.Header.Layout.{Content, read_header}
use kasop.Pow.Header.ReadBack.{IsHeader, Says, read_header-serialize_header}

-- "Ff0g" has a character that is no digit.
abbrev text : List ℕ
text = b'F' ∷ b'f' ∷ b'0' ∷ b'g' ∷ []

bad_character : decode_to_slice text 2 ≡ refused (invalid_hex_character b'g' 3)
unfolding decode_to_slice
bad_character = refl

decode_to_slice_example :
    ((length text % 2 ≡ 1) × (decode_to_slice text 2 ≡ refused odd_length))
    ⊎ (((length text % 2 ≡ 0)
          × (length text ≢ 2 * 2)
          × (decode_to_slice text 2 ≡ refused invalid_string_length))
        ⊎ ((length text ≡ 2 * 2)
            × (Decoded text 2 (decode_to_slice text 2) ⊎ BadAt text 0 (decode_to_slice text 2))))
decode_to_slice_example = decode_to_slice_lem text 2

abbrev hash_text : ℕ → List ℕ
hash_text b = to_hex false (replicate 32 b)

abbrev header : RpcBlockHeader
header = record {
  version = 24565;
  parents = (hash_text 1 ∷ hash_text 2 ∷ []) ∷ [] ∷ [];
  hash_merkle_root = hash_text 3;
  accepted_id_merkle_root = hash_text 4;
  utxo_commitment = hash_text 5;
  timestamp = 5435345234;
  bits = 0x1e21bc1c;
  nonce = 432432432;
  daa_score = 29335798;
  -- "92f01a0", an odd number of digits.
  blue_work = b'9' ∷ b'2' ∷ b'f' ∷ b'0' ∷ b'1' ∷ b'a' ∷ b'0' ∷ [];
  pruning_point = hash_text 6;
  blue_score = 24264857;
}

abbrev bytes_or : Outcome (List ℕ) → List ℕ
bytes_or (ok bytes) = bytes
bytes_or _ = []

abbrev header_bytes : List ℕ
unfolding serialize_header decode_to_slice
header_bytes = bytes_or (serialize_header header false)

header_serialized : serialize_header header false ≡ ok header_bytes
unfolding serialize_header decode_to_slice header_bytes
header_serialized = refl

-- Two counts and two levels, seven hashes, five numbers, the work and its length.
header_length : length header_bytes ≡ 2 + 8 + 8 + 64 + 8 + 96 + 36 + 8 + 4 + 32
unfolding serialize_header decode_to_slice header_bytes word_to_le_bytes
header_length = refl

-- A version that is no `u16`.
long_version : serialize_header (record header { version = 65536 }) true ≡ panic
unfolding serialize_header decode_to_slice
long_version = refl

no_header : block_hash (λ bytes. bytes) (record { header = none }) ≡ ok none
unfolding block_hash
no_header = refl

header-IsHeader : IsHeader header
header-IsHeader = record {
  levels = omega arith;
  hashes = (omega arith, (omega arith, tt));
  timestamp = omega arith;
  bits = omega arith;
  nonce = omega arith;
  daa_score = omega arith;
  blue_score = omega arith;
}

read_header_example :
    (content : Content) × Says header false content
    × (read_header (header_bytes ++ 1 ∷ 2 ∷ []) ≡ some (content, 1 ∷ 2 ∷ []))
read_header_example =
    read_header-serialize_header header false header_bytes (1 ∷ 2 ∷ []) header-IsHeader
      header_serialized
