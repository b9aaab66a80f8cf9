-- ===== src/Pow/HeavyHash/Product.antt =====
-- src/pow/heavy_hash.rs: the elements of a random matrix, and what its product comes to.
use kasop.Common.{
  ℕ, zero, suc, ◌+◌, ◌-◌, ◌*◌, ◌/◌, ◌%◌, ◌^◌, ◌≤◌, ◌<◌, List, [], ◌∷◌, length, All, bit_and, ◌≡◌,
  refl, ap₂, ◌∙◌, arith,
}
use native.Mathlib.Nat.{mul-le-mul_right}
use kasop.Common.Bits.Fields.{mask_as_mod, or_as_sum}
use kasop.Target.{Uint256, to_le_bytes}
use kasop.Target.Bytes.{to_le_bytes-All}
use kasop.Xoshiro.{State, next_plus_plus}
use kasop.Pow.HeavyHash.{
  Matrix, elements, rand_row, rand_rows, rand_matrix_no_rank_check, half_bytes, sum_row, combine,
  product,
}

abbrev pub IsHalfByte : ℕ → Type 0
IsHalfByte x = x < 16

abbrev pub IsRow : List ℕ → Type 0
IsRow row = (length row ≡ 64) × All IsHalfByte row

low_half : (x : ℕ) → bit_and x 0x0F < 16
low_half x = let e : bit_and x (2 ^ 4 - 1) ≡ x % 2 ^ 4 = mask_as_mod 4 x in omega (arith, e)

elements-All :
    (val k n : ℕ) (rest : List ℕ)
    → All IsHalfByte rest
    → (length (elements val k n rest) ≡ n + length rest) × All IsHalfByte (elements val k n rest)
unfolding elements
elements-All val k zero rest h = (omega arith, h)
elements-All val k (suc n) rest h =
    let (l, a) = elements-All val (k + 1) n rest h in
    (omega (arith, l), (low_half (val / 2 ^ (4 * k)), a))

rand_row-All :
    (blocks : ℕ) (g : State)
    → (length ((rand_row blocks g).1) ≡ blocks * 16) × All IsHalfByte ((rand_row blocks g).1)
unfolding rand_row
rand_row-All zero g = (refl, tt)
rand_row-All (suc blocks) g =
    let (l, a) = rand_row-All blocks ((next_plus_plus g).0) in
    let (l', a') =
      elements-All ((next_plus_plus g).1) 0 16 ((rand_row blocks ((next_plus_plus g).0)).1) a in
    (omega (arith, l, l'), a')

rand_rows-All :
    (n : ℕ) (g : State) → (length ((rand_rows n g).1) ≡ n) × All IsRow ((rand_rows n g).1)
unfolding rand_rows
rand_rows-All zero g = (refl, tt)
rand_rows-All (suc n) g =
    let (l, a) = rand_rows-All n ((rand_row 4 g).0) in (omega (arith, l), (rand_row-All 4 g, a))

-- From every state of the generator the random matrix has 64 rows of 64 half bytes.
pub rand_matrix_no_rank_check-All :
    (g : State)
    → (length ((rand_matrix_no_rank_check g).1) ≡ 64) × All IsRow ((rand_matrix_no_rank_check g).1)
unfolding rand_matrix_no_rank_check
rand_matrix_no_rank_check-All g = rand_rows-All 64 g

-- The inner product, without a bound.
abbrev pub inner : List ℕ → List ℕ → ℕ
inner (m ∷ ms) (v ∷ vec) = m * v + inner ms vec
inner [] vec = 0
inner (m ∷ ms) [] = 0

-- The product that is meant: 4 bits of the inner product with each row.
abbrev pub exact : Matrix → List ℕ → List ℕ
exact (row1 ∷ row2 ∷ rows) vec =
    (16 * (inner row1 vec / 1024) + inner row2 vec / 1024) ∷ exact rows vec
exact (row1 ∷ []) vec = []
exact [] vec = []

small_product : (m v : ℕ) → m < 16 → v < 16 → m * v ≤ 225
small_product m v h k = let le : m ≤ 15 = omega arith in omega (arith, mul-le-mul_right v le)

inner-le :
    (row vec : List ℕ) → All IsHalfByte row → All IsHalfByte vec → inner row vec ≤ 225 * length row
inner-le [] vec h k = omega arith
inner-le (m ∷ ms) [] h k = omega arith
inner-le (m ∷ ms) (v ∷ vec) (hm, h) (kv, k) =
    omega (arith, small_product m v hm kv, inner-le ms vec h k)

sum_row-inner :
    (sum : ℕ) (row vec : List ℕ)
    → All IsHalfByte row
    → All IsHalfByte vec
    → sum + 225 * length row < 2 ^ 16
    → sum_row sum row vec ≡ sum + inner row vec
unfolding sum_row
sum_row-inner sum [] vec h k b = omega arith
sum_row-inner sum (m ∷ ms) [] h k b = omega arith
sum_row-inner sum (m ∷ ms) (v ∷ vec) (hm, h) (kv, k) b =
    let p = small_product m v hm kv in
    let e : (sum + m * v % 2 ^ 16) % 2 ^ 16 ≡ sum + m * v = omega (arith, p) in
    let s = sum_row-inner (sum + m * v) ms vec h k (omega (arith, p)) in rw e (omega (arith, s))

combine_lem : (a b : ℕ) → a ≤ 14400 → b ≤ 14400 → combine a b ≡ 16 * (a / 1024) + b / 1024
unfolding combine
combine_lem a b h k =
    let e : a / 2 ^ 10 * 2 ^ 4 % 2 ^ 16 % 2 ^ 8 ≡ a / 1024 * 2 ^ 4 = omega arith in
    let f : b / 2 ^ 10 % 2 ^ 8 ≡ b / 1024 = omega arith in
    let o = or_as_sum 4 (a / 1024) (b / 1024) (omega arith) in rw e (rw f (omega (arith, o)))

product-exact_upto :
    (matrix : Matrix) (vec : List ℕ)
    → All IsRow matrix
    → All IsHalfByte vec
    → product matrix vec ≡ exact matrix vec
unfolding product
product-exact_upto [] vec h k = refl
product-exact_upto (row1 ∷ []) vec h k = refl
product-exact_upto (row1 ∷ row2 ∷ rows) vec ((l1, a1), ((l2, a2), h)) k =
    let s1 : sum_row 0 row1 vec ≡ inner row1 vec =
      omega (arith, sum_row-inner 0 row1 vec a1 k (omega (arith, l1))) in
    let s2 : sum_row 0 row2 vec ≡ inner row2 vec =
      omega (arith, sum_row-inner 0 row2 vec a2 k (omega (arith, l2))) in
    let b1 = inner-le row1 vec a1 k in
    let b2 = inner-le row2 vec a2 k in
    ap₂ ◌∷◌
      (ap₂ combine s1 s2
        ∙ combine_lem (inner row1 vec) (inner row2 vec) (omega (arith, b1, l1))
            (omega (arith, b2, l2)))
      (product-exact_upto rows vec h k)

half_bytes-All : (bytes : List ℕ) → All (λ b. b < 256) bytes → All IsHalfByte (half_bytes bytes)
unfolding half_bytes
half_bytes-All [] h = tt
half_bytes-All (b ∷ bs) (hb, h) = (omega arith, (low_half b, half_bytes-All bs h))

-- For a matrix of rows of 64 half bytes no sum of the product overflows its 16 bits: each byte of
-- the product with the half bytes of a hash is made of the exact inner products with two rows, each
-- divided by 1024.
pub product-exact :
    (matrix : Matrix) (hash : Uint256)
    → All IsRow matrix
    → product matrix (half_bytes (to_le_bytes hash)) ≡ exact matrix (half_bytes (to_le_bytes hash))
product-exact matrix hash h =
    product-exact_upto matrix (half_bytes (to_le_bytes hash)) h
      (half_bytes-All (to_le_bytes hash) (to_le_bytes-All hash))
