-- ===== src/Pow/Header/ReadBack.antt =====
-- src/pow.rs: a serialized header is read back with all that it says.
use kasop.Common.{
  ℕ, ◌+◌, ◌/◌, ◌%◌, ◌^◌, ◌<◌, Bool, true, false, List, ◌∷◌, ◌++◌, some, length, All, ltb, ◌==◌,
  if◌then◌else◌, ◌≡◌, refl, subst, inl, inr, Bool-cases, Outcome, ok, panic, >>=-eq-ok, arith,
}
use kasop.Pow.Header.{
  RpcBlockHeader, decode_hash, serialize_parents, to_u16, decode_blue_work, serialize_header,
}
use kasop.Pow.Header.Parents.{
  LevelsDecode, decode_to_slice-length, serialize_parents-read, Reads-hash,
}
use kasop.Pow.Header.Layout.{
  Content, read_header, Reads, Reads-then, Reads-map, Reads-bytes, Reads-word,
}

-- The counts and numbers fit into their types.
pub record IsHeader (header : RpcBlockHeader) : Type 0 where
  pub levels : length header.parents < 2 ^ 64
  pub hashes : All (λ level. length level < 2 ^ 64) header.parents
  pub timestamp : header.timestamp < 2 ^ 64
  pub bits : header.bits < 2 ^ 32
  pub nonce : header.nonce < 2 ^ 64
  pub daa_score : header.daa_score < 2 ^ 64
  pub blue_score : header.blue_score < 2 ^ 64

-- The content is that of the header; before the proof of work without its nonce and its time.
pub record Says (header : RpcBlockHeader) (for_pre_pow : Bool) (content : Content) : Type 0 where
  pub version : content.version ≡ header.version
  pub parents : LevelsDecode header.parents content.parents
  pub merkle_root : decode_hash header.hash_merkle_root ≡ ok content.merkle_root
  pub accepted_root : decode_hash header.accepted_id_merkle_root ≡ ok content.accepted_root
  pub utxo : decode_hash header.utxo_commitment ≡ ok content.utxo
  pub timestamp : content.timestamp ≡ (if for_pre_pow then 0 else header.timestamp)
  pub bits : content.bits ≡ header.bits
  pub nonce : content.nonce ≡ (if for_pre_pow then 0 else header.nonce)
  pub daa_score : content.daa_score ≡ header.daa_score
  pub blue_score : content.blue_score ≡ header.blue_score
  pub blue_work : decode_blue_work header.blue_work ≡ ok content.blue_work
  pub pruning_point : decode_hash header.pruning_point ≡ ok content.pruning_point

decode_blue_work-length :
    (text bytes : List ℕ)
    → decode_blue_work text ≡ ok bytes
    → (length bytes ≡ (length text + 1) / 2) × ((length text + 1) / 2 < 2 ^ 64)
unfolding decode_blue_work
decode_blue_work-length text bytes h = elim (Bool-cases (ltb 32 ((length text + 1) / 2))) [
  | inl e ↦ let k : ◌≡◌ {A = Outcome (List ℕ)} panic (ok bytes) = rw e at h in absurd (cc)
  | inr e ↦
      let small : (length text + 1) / 2 < 2 ^ 64 = ground arith in
      elim (Bool-cases (length text % 2 == 0)) [
        | inl f ↦ (decode_to_slice-length text ((length text + 1) / 2) (rw (e, f) at h), small)
        | inr f ↦
            (decode_to_slice-length (b'0' ∷ text) ((length text + 1) / 2) (rw (e, f) at h), small)
      ]
]

to_u16-lt : (version v : ℕ) → to_u16 version ≡ ok v → (v ≡ version) × (v < 2 ^ 16)
to_u16-lt version v h = ground arith

-- The reader of the content, behind each part.
record Back (header : RpcBlockHeader) (for_pre_pow : Bool) (bytes : List ℕ) : Type 0 where
  content : Content
  says : Says header for_pre_pow content
  reads : Reads read_header bytes content

back :
    (header : RpcBlockHeader) (for_pre_pow : Bool) (bytes : List ℕ)
    → IsHeader header
    → serialize_header header for_pre_pow ≡ ok bytes
    → Back header for_pre_pow bytes
unfolding serialize_header read_header
back header for_pre_pow bytes s h =
    let (version, e1, h1) = >>=-eq-ok (to_u16 header.version) _ h in
    let (parents, e2, h2) = >>=-eq-ok (serialize_parents header.parents) _ h1 in
    let (merkle, e3, h3) = >>=-eq-ok (decode_hash header.hash_merkle_root) _ h2 in
    let (accepted, e4, h4) = >>=-eq-ok (decode_hash header.accepted_id_merkle_root) _ h3 in
    let (utxo, e5, h5) = >>=-eq-ok (decode_hash header.utxo_commitment) _ h4 in
    let (blue, e6, h6) = >>=-eq-ok (decode_blue_work header.blue_work) _ h5 in
    let (pruning, e7, h7) = >>=-eq-ok (decode_hash header.pruning_point) _ h6 in
    let levels = serialize_parents-read header.parents parents s.hashes e2 in
    let (fits, small) = to_u16-lt header.version version e1 in
    let (l6, b6) = decode_blue_work-length header.blue_work blue e6 in
    let g = ok-injective h7 in
    subst (Back header for_pre_pow) g (record {
      content = record {
        version = version;
        parents = levels.parents;
        merkle_root = merkle;
        accepted_root = accepted;
        utxo = utxo;
        timestamp = if for_pre_pow then 0 else header.timestamp;
        bits = header.bits;
        nonce = if for_pre_pow then 0 else header.nonce;
        daa_score = header.daa_score;
        blue_score = header.blue_score;
        blue_work = blue;
        pruning_point = pruning;
      };
      says = record {
        version = fits;
        parents = levels.decode;
        merkle_root = e3;
        accepted_root = e4;
        utxo = e5;
        timestamp = refl;
        bits = refl;
        nonce = refl;
        daa_score = refl;
        blue_score = refl;
        blue_work = e6;
        pruning_point = e7;
      };
      reads = Reads-then _ (Reads-word 2 version small) (
          Reads-then _ (Reads-word 8 (length header.parents) s.levels) (
            Reads-then _ levels.read (
              Reads-then _ (Reads-hash header.hash_merkle_root merkle e3) (
                Reads-then _ (Reads-hash header.accepted_id_merkle_root accepted e4) (
                  Reads-then _ (Reads-hash header.utxo_commitment utxo e5) (
                    Reads-then _ (Reads-word 8 _ (zero_or for_pre_pow header.timestamp s.timestamp))
                      (Reads-then _ (Reads-word 4 header.bits s.bits) (
                        Reads-then _ (Reads-word 8 _ (zero_or for_pre_pow header.nonce s.nonce)) (
                          Reads-then _ (Reads-word 8 header.daa_score s.daa_score) (
                            Reads-then _ (Reads-word 8 header.blue_score s.blue_score) (
                              Reads-then _ (Reads-word 8 ((length header.blue_work + 1) / 2) b6) (
                                Reads-then _
                                  (Reads-bytes ((length header.blue_work + 1) / 2) blue l6)
                                  (Reads-map _
                                    (Reads-hash header.pruning_point pruning e7))))))))))))));
    })
  where
    zero_or : (b : Bool) (x : ℕ) → x < 2 ^ 64 → (if b then 0 else x) < 2 ^ 64
    zero_or true x l = omega arith
    zero_or false x l = l

    ok-injective : {a b : List ℕ} → ◌≡◌ {A = Outcome (List ℕ)} (ok a) (ok b) → a ≡ b
    ok-injective {a} {b} e = cc

-- Where a header is serialized at all, the bytes and whatever follows them are read back as one
-- content: the numbers and the decoded texts of the header, with zeros for its nonce and its time
-- before the proof of work. So the bytes stand for one content only.
pub read_header-serialize_header :
    (header : RpcBlockHeader) (for_pre_pow : Bool) (bytes rest : List ℕ)
    → IsHeader header
    → serialize_header header for_pre_pow ≡ ok bytes
    → (content : Content) × Says header for_pre_pow content
      × (read_header (bytes ++ rest) ≡ some (content, rest))
read_header-serialize_header header for_pre_pow bytes rest s h =
    let b = back header for_pre_pow bytes s h in (b.content, b.says, b.reads.reads rest)
