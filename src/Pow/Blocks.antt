-- ===== src/Pow/Blocks.antt =====
-- The blocks of proto/rpc.proto as those of src/pow.rs.
use kasop.Common.{ℕ, true, false, List, none, some, panic}
use kasop.Pow.{RpcBlocks}
use kasop.Pow.Header.{RpcBlockHeader, RpcBlock, header_hash}

abbrev field_of : (RpcBlockHeader → ℕ) → RpcBlock → ℕ
field_of field block = elim (block.header) [ none ↦ 0 | some header ↦ field header ]

-- `header.nonce = nonce`.
abbrev set_nonce : ℕ → RpcBlock → RpcBlock
set_nonce nonce block = elim (block.header) [
  | none ↦ block
  | some header ↦ record block { header = some (record header { nonce = nonce }) }
]

abbrev pub rpc_blocks : (List ℕ → List ℕ) → RpcBlocks RpcBlock
rpc_blocks blake2b = record {
  has_header = λ block. elim (block.header) [ none ↦ false | some header ↦ true ];
  bits = field_of (λ header. header.bits);
  timestamp = field_of (λ header. header.timestamp);
  pre_pow_hash =
      λ block. elim (block.header) [ none ↦ panic | some header ↦ header_hash blake2b header true ];
  with_nonce = set_nonce;
}
