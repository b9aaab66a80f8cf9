-- ===== src/Pow/Header/Parents.antt =====
-- src/pow.rs: the parents of a header, and single hashes, are read back.
use kasop.Common.{
  append_assoc, ℕ, ◌^◌, ◌<◌, List, [], ◌∷◌, ◌++◌, length, All, ◌≡◌, sym, ap, subst, ◌∙◌, inl, inr,
  Outcome, ok, panic, >>=-eq-ok,
}
use kasop.Target.{word_to_le_bytes}
use kasop.Pow.Header.{
  FromHexError, decoded, refused, unwrap, decode_hash, serialize_hashes, serialize_parents,
  decode_to_slice,
}
use kasop.Pow.Header.Hex.{decode_to_slice_lem}
use kasop.Pow.Header.Layout.{
  read_bytes, read_many, read_level, Reads, Reads-then, Reads-none, Reads-more, Reads-bytes,
  Reads-word,
}

-- The texts and the bytes that they stand for.
abbrev pub AllDecode : List (List ℕ) → List (List ℕ) → Type 0
AllDecode [] [] = Unit {0}
AllDecode (text ∷ texts) (bytes ∷ more) = (decode_hash text ≡ ok bytes) × AllDecode texts more
AllDecode [] (bytes ∷ more) = ⊥
AllDecode (text ∷ texts) [] = ⊥

abbrev pub LevelsDecode : List (List (List ℕ)) → List (List (List ℕ)) → Type 0
LevelsDecode [] [] = Unit {0}
LevelsDecode (level ∷ levels) (hashes ∷ more) = AllDecode level hashes × LevelsDecode levels more
LevelsDecode [] (hashes ∷ more) = ⊥
LevelsDecode (level ∷ levels) [] = ⊥

pub decode_to_slice-length :
    (text : List ℕ) (n : ℕ) {bytes : List ℕ}
    → unwrap (decode_to_slice text n) ≡ ok bytes
    → length bytes ≡ n
decode_to_slice-length text n {bytes} h = elim (decode_to_slice_lem text n) [
  | inl (l, e) ↦ absurd (other e)
  | inr (inl (l, m, e)) ↦ absurd (other e)
  | inr (inr (l, inl d)) ↦ same (d.result) (d.number)
  | inr (inr (l, inr b)) ↦ absurd (other (b.result))
]
  where
    other : {e : FromHexError} → decode_to_slice text n ≡ refused e → ⊥
    other e =
        let k : ◌≡◌ {A = Outcome (List ℕ)} panic (ok bytes) = sym (ap unwrap e) ∙ h in absurd (cc)

    same : {b : List ℕ} → decode_to_slice text n ≡ decoded b → length b ≡ n → length bytes ≡ n
    same {b} e l =
        let k : ◌≡◌ {A = Outcome (List ℕ)} (ok b) (ok bytes) = sym (ap unwrap e) ∙ h in
        let f : b ≡ bytes = cc in sym (ap length f) ∙ l

record HashesRead (texts : List (List ℕ)) (bytes : List ℕ) : Type 0 where
  hashes : List (List ℕ)
  decode : AllDecode texts hashes
  read : Reads (read_many (read_bytes 32) (length texts)) bytes hashes

serialize_hashes-read :
    (texts : List (List ℕ)) (bytes : List ℕ)
    → serialize_hashes texts ≡ ok bytes
    → HashesRead texts bytes
unfolding serialize_hashes
serialize_hashes-read [] bytes h =
    let e : [] ≡ bytes = cc in
    subst (HashesRead []) e (record { hashes = []; decode = tt; read = Reads-none (read_bytes 32) })
serialize_hashes-read (text ∷ texts) bytes h =
    let (hash, e, k) = >>=-eq-ok (decode_hash text) _ h in
    let (more, f, l) = >>=-eq-ok (serialize_hashes texts) _ k in
    let r = serialize_hashes-read texts more f in
    let g : hash ++ more ≡ bytes = cc in
    subst (HashesRead (text ∷ texts)) g (record {
      hashes = hash ∷ r.hashes;
      decode = (e, r.decode);
      read =
          Reads-more (read_bytes 32) (length texts)
            (Reads-bytes 32 hash (decode_to_slice-length text 32 e)) r.read;
    })

pub record LevelsRead (levels : List (List (List ℕ))) (bytes : List ℕ) : Type 0 where
  pub parents : List (List (List ℕ))
  pub decode : LevelsDecode levels parents
  pub read : Reads (read_many read_level (length levels)) bytes parents

pub serialize_parents-read :
    (levels : List (List (List ℕ))) (bytes : List ℕ)
    → All (λ level. length level < 2 ^ 64) levels
    → serialize_parents levels ≡ ok bytes
    → LevelsRead levels bytes
unfolding serialize_parents
serialize_parents-read [] bytes s h =
    let e : [] ≡ bytes = cc in
    subst (LevelsRead []) e (record { parents = []; decode = tt; read = Reads-none read_level })
serialize_parents-read (level ∷ levels) bytes (small, s) h =
    let (hashes, e, k) = >>=-eq-ok (serialize_hashes level) _ h in
    let (more, f, l) = >>=-eq-ok (serialize_parents levels) _ k in
    let q = serialize_hashes-read level hashes e in
    let r = serialize_parents-read levels more s f in
    let g : (word_to_le_bytes 8 (length level) ++ (hashes ++ more)) ≡ bytes = cc in
    let one : Reads read_level (word_to_le_bytes 8 (length level) ++ hashes) q.hashes =
      Reads-then _ (Reads-word 8 (length level) small) q.read in
    subst (LevelsRead (level ∷ levels)) (append_assoc _ hashes more ∙ g) (record {
      parents = q.hashes ∷ r.parents;
      decode = (q.decode, r.decode);
      read = Reads-more read_level (length levels) one r.read;
    })

-- The bytes of a hash are read as they are.
pub Reads-hash :
    (text bytes : List ℕ) → decode_hash text ≡ ok bytes → Reads (read_bytes 32) bytes bytes
Reads-hash text bytes h = Reads-bytes 32 bytes (decode_to_slice-length text 32 h)
