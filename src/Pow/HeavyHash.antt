-- ===== src/Pow/HeavyHash.antt =====
-- src/pow/heavy_hash.rs: the matrix of a block, and its product with the half bytes of a hash. The
-- rank is computed with floating point numbers, which are a parameter.
pub mod Product
use kasop.Common.{
  ℕ, zero, suc, ◌+◌, ◌-◌, ◌*◌, ◌/◌, ◌%◌, ◌^◌, Bool, true, false, List, [], ◌∷◌, Option, none, some,
  bit_and, bit_or, bit_xor, ltb, ◌==◌, ◌&&◌, not, get_or, set, map, replicate, if◌then◌else◌,
}
use kasop.Target.{Uint256, from_le_bytes, to_le_bytes}
use kasop.Xoshiro.{State, next_plus_plus}

-- The rows.
abbrev pub Matrix : Type 0
Matrix = List (List ℕ)

-- `XoShiRo256PlusPlus::new`.
abbrev pub new_generator : Uint256 → State
new_generator hash = record {
  s0 = get_or hash 0 0;
  s1 = get_or hash 1 0;
  s2 = get_or hash 2 0;
  s3 = get_or hash 3 0;
}

-- The elements from the shift `k` on that one number gives, then the rest of the row. A row is of
-- `blocks` numbers with 16 elements each.
pub elements : ℕ → ℕ → ℕ → List ℕ → List ℕ
elements val k zero rest = rest
elements val k (suc n) rest = bit_and (val / 2 ^ (4 * k)) 0x0F ∷ elements val (k + 1) n rest

pub rand_row : ℕ → State → State × List ℕ
unfolding elements
rand_row zero g = (g, [])
rand_row (suc blocks) g =
    let (g', val) = next_plus_plus g in
    let (g'', row) = rand_row blocks g' in (g'', elements val 0 16 row)

pub rand_rows : ℕ → State → State × Matrix
unfolding rand_row
rand_rows zero g = (g, [])
rand_rows (suc n) g =
    let (g', row) = rand_row 4 g in let (g'', rows) = rand_rows n g' in (g'', row ∷ rows)

pub rand_matrix_no_rank_check : State → State × Matrix
unfolding rand_rows
rand_matrix_no_rank_check g = rand_rows 64 g

-- `f64`, as far as the rank uses it. `is_big x` stands for `x.abs() > EPS`.
pub record RankFloat (F : Type 0) : Type 0 where
  pub from : ℕ → F
  pub sub : F → F → F
  pub mul : F → F → F
  pub div : F → F → F
  pub is_big : F → Bool

module _ {F : Type 0} (float : RankFloat F) where
  pub convert_to_float : Matrix → List (List F)
  convert_to_float [] = []
  convert_to_float (row ∷ rows) = map float.from row ∷ convert_to_float rows

  abbrev element : List F → ℕ → F
  element row i = get_or row i (float.from 0)

  -- The loop over `j`: the first row from `j` on that is not selected and has a big element.
  pub find_row : ℕ → ℕ → List Bool → List (List F) → Option ℕ
  find_row i j (selected ∷ more) (row ∷ rows) =
      let later = find_row i (j + 1) more rows in
      if not selected && float.is_big (element row i) then some j else later
  find_row i j [] rows = none
  find_row i j (selected ∷ more) [] = none

  -- The elements behind `i` divided by that at `i`; `p` is the place of the first of them.
  pub divided : ℕ → ℕ → F → List F → List F
  divided i p pivot [] = []
  divided i p pivot (x ∷ xs) =
      (if ltb i p then float.div x pivot else x) ∷ divided i (p + 1) pivot xs

  -- A multiple of the row `by` taken off the elements behind `i`.
  pub reduced : ℕ → ℕ → F → List F → List F → List F
  reduced i p factor by [] = []
  reduced i p factor [] (x ∷ xs) = x ∷ xs
  reduced i p factor (y ∷ ys) (x ∷ xs) =
      (if ltb i p then float.sub x (float.mul y factor) else x) ∷ reduced i (p + 1) factor ys xs

  -- The loop over `k`.
  pub reduce_rows : ℕ → ℕ → ℕ → List F → List (List F) → List (List F)
  unfolding reduced
  reduce_rows i j k by [] = []
  reduce_rows i j k by (row ∷ rows) =
      (if not (k == j) && float.is_big (element row i)
        then reduced i 0 (element row i) by row
        else row)
      ∷ reduce_rows i j (k + 1) by rows

  -- The loop over `i`, with the number of rounds that are left.
  pub rank_from : ℕ → ℕ → List Bool → List (List F) → ℕ → ℕ
  unfolding find_row divided reduce_rows
  rank_from zero i row_selected mat rank = rank
  rank_from (suc n) i row_selected mat rank = elim (find_row i 0 row_selected mat) [
    | none ↦ rank_from n (i + 1) row_selected mat rank
    | some j ↦
        let row = get_or mat j [] in
        let by = divided i 0 (element row i) row in
        rank_from n (i + 1) (set row_selected j true) (reduce_rows i j 0 by (set mat j by))
          (rank + 1)
  ]

  pub compute_rank : Matrix → ℕ
  unfolding rank_from convert_to_float
  compute_rank mat = rank_from 64 0 (replicate 64 false) (convert_to_float mat) 0

  -- The loop of `generate`, for a number of tries. There is no bound in the source; without a
  -- matrix at the end there is no result.
  pub generate_from : ℕ → State → Option Matrix
  unfolding rand_matrix_no_rank_check compute_rank
  generate_from zero g = none
  generate_from (suc tries) g =
      let (g', mat) = rand_matrix_no_rank_check g in
      let again = generate_from tries g' in if compute_rank mat == 64 then some mat else again

  unfoldable pub generate : ℕ → Uint256 → Option Matrix
  unfolding generate_from
  generate tries hash = generate_from tries (new_generator hash)

-- The half bytes, the higher one first.
unfoldable pub half_bytes : List ℕ → List ℕ
half_bytes [] = []
half_bytes (b ∷ bs) = b / 2 ^ 4 ∷ bit_and b 0x0F ∷ half_bytes bs

-- The sum of a row, in a `u16`.
unfoldable pub sum_row : ℕ → List ℕ → List ℕ → ℕ
sum_row sum (m ∷ ms) (elem ∷ vec) = sum_row ((sum + m * elem % 2 ^ 16) % 2 ^ 16) ms vec
sum_row sum [] vec = sum
sum_row sum (m ∷ ms) [] = sum

unfoldable pub combine : ℕ → ℕ → ℕ
combine sum1 sum2 = bit_or (sum1 / 2 ^ 10 * 2 ^ 4 % 2 ^ 16 % 2 ^ 8) (sum2 / 2 ^ 10 % 2 ^ 8)

-- The bytes of the product, each from two rows.
unfoldable pub product : Matrix → List ℕ → List ℕ
unfolding sum_row combine
product (row1 ∷ row2 ∷ rows) vec =
    combine (sum_row 0 row1 vec) (sum_row 0 row2 vec) ∷ product rows vec
product (row1 ∷ []) vec = []
product [] vec = []

-- The words or bytes of two lists, as far as the second one goes.
unfoldable pub xor_zip : List ℕ → List ℕ → List ℕ
xor_zip [] ys = []
xor_zip (x ∷ xs) [] = x ∷ xs
xor_zip (x ∷ xs) (y ∷ ys) = bit_xor x y ∷ xor_zip xs ys

-- `Matrix::heavy_hash` up to the last hash.
unfoldable pub heavy_product : Matrix → Uint256 → Uint256
unfolding half_bytes product xor_zip
heavy_product matrix hash =
    let bytes = to_le_bytes hash in
    from_le_bytes (xor_zip (product matrix (half_bytes bytes)) bytes)
