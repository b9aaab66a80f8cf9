-- ===== src/Target/Bytes.antt =====
-- The little-endian bytes of a 256-bit number.
use kasop.Common.{
  ℕ, zero, suc, ◌+◌, ◌*◌, ◌/◌, ◌%◌, ◌^◌, ◌<◌, ◌≡◌, refl, ap, ap₂, ◌∙◌, List, [], ◌∷◌, ◌++◌, arith,
}
use kasop.Common.{length, take, drop, All, length-take, length-drop, take-append-drop}
use kasop.Common.Powers.{pow-add}
use kasop.Target.{
  Uint256, IsUint256, word_from_le_bytes, word_to_le_bytes, from_le_bytes, to_le_bytes, from_chunks,
}

-- Eight bytes hold a 64-bit word.
word_bytes : (x : ℕ) → x < 2 ^ 64 → word_from_le_bytes (word_to_le_bytes 8 x) ≡ x
unfolding word_from_le_bytes word_to_le_bytes
word_bytes x h = omega arith

bytes_word :
    (n : ℕ) (bs : List ℕ)
    → length bs ≡ n
    → All (λ b. b < 256) bs
    → word_to_le_bytes n (word_from_le_bytes bs) ≡ bs
unfolding word_from_le_bytes word_to_le_bytes
bytes_word zero [] e h = refl
bytes_word zero (b ∷ bs) e h = absurd (omega arith)
bytes_word (suc n) [] e h = absurd (omega arith)
bytes_word (suc n) (b ∷ bs) e (hb, h) =
    let low : (b + 256 * word_from_le_bytes bs) % 256 ≡ b = omega arith in
    let high : (b + 256 * word_from_le_bytes bs) / 256 ≡ word_from_le_bytes bs = omega arith in
    ap₂ ◌∷◌ low (ap (word_to_le_bytes n) high ∙ bytes_word n bs (omega arith) h)

-- Writing a number of 256 bits as 32 bytes and reading it back gives the number.
pub from_le_bytes-to_le_bytes : (x : Uint256) → IsUint256 x → from_le_bytes (to_le_bytes x) ≡ x
unfolding from_le_bytes to_le_bytes
from_le_bytes-to_le_bytes (a ∷ b ∷ c ∷ d ∷ []) (ha, hb, hc, hd) =
    ap₂ ◌∷◌ (word_bytes a ha)
      (ap₂ ◌∷◌ (word_bytes b hb) (ap₂ ◌∷◌ (word_bytes c hc) (ap₂ ◌∷◌ (word_bytes d hd) refl)))
from_le_bytes-to_le_bytes _ h = absurd h

All-take {ℓ κ} : {A : Type ℓ} (P : A → Type κ) (n : ℕ) (xs : List A) → All P xs → All P (take n xs)
All-take P zero xs h = tt
All-take P (suc n) [] h = tt
All-take P (suc n) (x ∷ xs) (p, h) = (p, All-take P n xs h)

All-drop {ℓ κ} : {A : Type ℓ} (P : A → Type κ) (n : ℕ) (xs : List A) → All P xs → All P (drop n xs)
All-drop P zero xs h = h
All-drop P (suc n) [] h = tt
All-drop P (suc n) (x ∷ xs) (p, h) = All-drop P n xs h

from_chunks_bytes :
    (n : ℕ) (bs : List ℕ)
    → length bs ≡ 8 * n
    → All (λ b. b < 256) bs
    → to_le_bytes (from_chunks n bs) ≡ bs
unfolding from_chunks to_le_bytes
from_chunks_bytes zero [] e h = refl
from_chunks_bytes zero (b ∷ bs) e h = absurd (omega arith)
from_chunks_bytes (suc n) bs e h =
    ap₂ ◌++◌
      (bytes_word 8 (take 8 bs) (omega (arith, length-take 8 bs)) (All-take (λ b. b < 256) 8 bs h))
      (from_chunks_bytes n (drop 8 bs) (omega (arith, length-drop 8 bs))
        (All-drop (λ b. b < 256) 8 bs h))
    ∙ take-append-drop 8 bs

-- Reading 32 bytes and writing them back gives the bytes.
pub to_le_bytes-from_le_bytes :
    (bs : List ℕ) → length bs ≡ 32 → All (λ b. b < 256) bs → to_le_bytes (from_le_bytes bs) ≡ bs
unfolding from_le_bytes
to_le_bytes-from_le_bytes bs e h = from_chunks_bytes 4 bs e h

-- What is written are bytes.
word_to_le_bytes-All : (n x : ℕ) → All (λ b. b < 256) (word_to_le_bytes n x)
unfolding word_to_le_bytes
word_to_le_bytes-All zero x = tt
word_to_le_bytes-All (suc n) x = (omega arith, word_to_le_bytes-All n (x / 256))

bytes_append :
    (xs ys : List ℕ) → All (λ b. b < 256) xs → All (λ b. b < 256) ys → All (λ b. b < 256) (xs ++ ys)
bytes_append [] ys h k = k
bytes_append (x ∷ xs) ys (p, h) k = (p, bytes_append xs ys h k)

pub to_le_bytes-All : (hash : Uint256) → All (λ b. b < 256) (to_le_bytes hash)
unfolding to_le_bytes
to_le_bytes-All [] = tt
to_le_bytes-All (w ∷ ws) =
    bytes_append (word_to_le_bytes 8 w) (to_le_bytes ws) (word_to_le_bytes-All 8 w)
      (to_le_bytes-All ws)

pub length-word_to_le_bytes : (n x : ℕ) → length (word_to_le_bytes n x) ≡ n
unfolding word_to_le_bytes
length-word_to_le_bytes zero x = refl
length-word_to_le_bytes (suc n) x = ap suc (length-word_to_le_bytes n (x / 256))

-- `n` bytes hold a number below 256 to the power of `n`.
pub word_from-word_to : (n x : ℕ) → x < 2 ^ (8 * n) → word_from_le_bytes (word_to_le_bytes n x) ≡ x
unfolding word_from_le_bytes word_to_le_bytes
word_from-word_to zero x h = omega (arith, h)
word_from-word_to (suc n) x h =
    let e : 2 ^ (8 * suc n) ≡ 256 * 2 ^ (8 * n) =
      let f : 8 * suc n ≡ 8 + 8 * n = omega arith in ap (λ k. 2 ^ k) f ∙ pow-add 8 (8 * n) in
    let s : word_from_le_bytes (word_to_le_bytes n (x / 256)) ≡ x / 256 =
      word_from-word_to n (x / 256) (omega (arith, h, e)) in
    omega (arith, s)
