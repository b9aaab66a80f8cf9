-- ===== src/Target/Shift.antt =====
-- `<<` is multiplication by a power of two modulo 2 ^ 256.
use kasop.Common.{
  ℕ, zero, suc, ◌+◌, ◌-◌, ◌*◌, ◌/◌, ◌%◌, ◌^◌, ◌≤◌, ◌<◌, ◌≡◌, sym, ap, ◌∙◌, List, [], ◌∷◌, arith,
}
use kasop.Common.{ltb, lt→ltb, Bool-cases, inl, inr}
use kasop.Common.Powers.{pow-add, pow_pos, shl_split, shl_room, carry-lt}
use kasop.Target.{Uint256, IsUint256, value, default, shl, shl_loop}

-- For a shift by less than a word: the part of a word that stays in its place, and the part that
-- moves up to the next.
abbrev stays : ℕ → ℕ → ℕ
stays k x = x * 2 ^ k % 2 ^ 64

abbrev moves : ℕ → ℕ → ℕ
moves k x = x / 2 ^ (64 - k)

module _ (a b c d k : ℕ) (small : k < 64) (w : IsUint256 (a ∷ b ∷ c ∷ d ∷ [])) where
  abbrev words : List ℕ
  words = a ∷ b ∷ c ∷ d ∷ []

  by_no_words :
      shl_loop words 0 k default 0
      ≡ stays k a ∷ (moves k a + stays k b) ∷ (moves k b + stays k c) ∷ (moves k c + stays k d) ∷ []
  unfolding shl_loop
  by_no_words = elim (Bool-cases (ltb 0 k)) [
    | inl e ↦
        rw (e, lt→ltb k 64 small)
          (ground (
            arith,
            shl_room b k (omega arith),
            shl_room c k (omega arith),
            shl_room d k (omega arith),
            carry-lt a k (omega arith) w.0,
            carry-lt b k (omega arith) w.1,
            carry-lt c k (omega arith) w.2,
          ))
    | inr e ↦ rw (e, lt→ltb k 64 small) (let z : k ≡ 0 = ground arith in rw z (ground arith))
  ]

  by_one_words :
      shl_loop words 1 k default 0
      ≡ 0 ∷ stays k a ∷ (moves k a + stays k b) ∷ (moves k b + stays k c) ∷ []
  unfolding shl_loop
  by_one_words = elim (Bool-cases (ltb 0 k)) [
    | inl e ↦
        rw (e, lt→ltb k 64 small)
          (ground (
            arith,
            shl_room b k (omega arith),
            shl_room c k (omega arith),
            carry-lt a k (omega arith) w.0,
            carry-lt b k (omega arith) w.1,
          ))
    | inr e ↦ rw (e, lt→ltb k 64 small) (let z : k ≡ 0 = ground arith in rw z (ground arith))
  ]

  by_two_words : shl_loop words 2 k default 0 ≡ 0 ∷ 0 ∷ stays k a ∷ (moves k a + stays k b) ∷ []
  unfolding shl_loop
  by_two_words = elim (Bool-cases (ltb 0 k)) [
    | inl e ↦
        rw (e, lt→ltb k 64 small)
          (ground (arith, shl_room b k (omega arith), carry-lt a k (omega arith) w.0))
    | inr e ↦ rw (e, lt→ltb k 64 small) (let z : k ≡ 0 = ground arith in rw z (ground arith))
  ]

  by_three_words : shl_loop words 3 k default 0 ≡ 0 ∷ 0 ∷ 0 ∷ stays k a ∷ []
  unfolding shl_loop
  by_three_words = elim (Bool-cases (ltb 0 k)) [
    | inl e ↦ rw (e, lt→ltb k 64 small) (ground arith)
    | inr e ↦ rw (e, lt→ltb k 64 small) (let z : k ≡ 0 = ground arith in rw z (ground arith))
  ]

  by_four_words : (n : ℕ) → 4 ≤ n → shl_loop words n k default 0 ≡ default
  unfolding shl_loop
  by_four_words n h = ground arith

  value_no : value (shl_loop words 0 k default 0) ≡ value words * (2 ^ (64 * 0) * 2 ^ k) % 2 ^ 256
  value_no = rw by_no_words (
      omega (
        arith,
        pow_pos k,
        shl_split a k (omega arith),
        shl_split b k (omega arith),
        shl_split c k (omega arith),
        shl_split d k (omega arith),
        shl_room a k (omega arith),
        shl_room b k (omega arith),
        shl_room c k (omega arith),
        shl_room d k (omega arith),
        carry-lt a k (omega arith) w.0,
        carry-lt b k (omega arith) w.1,
        carry-lt c k (omega arith) w.2,
      ))

  value_one : value (shl_loop words 1 k default 0) ≡ value words * (2 ^ (64 * 1) * 2 ^ k) % 2 ^ 256
  value_one = rw by_one_words (
      omega (
        arith,
        pow_pos k,
        shl_split a k (omega arith),
        shl_split b k (omega arith),
        shl_split c k (omega arith),
        shl_room a k (omega arith),
        shl_room b k (omega arith),
        shl_room c k (omega arith),
        carry-lt a k (omega arith) w.0,
        carry-lt b k (omega arith) w.1,
      ))

  value_two : value (shl_loop words 2 k default 0) ≡ value words * (2 ^ (64 * 2) * 2 ^ k) % 2 ^ 256
  value_two = rw by_two_words (
      omega (
        arith,
        pow_pos k,
        shl_split a k (omega arith),
        shl_split b k (omega arith),
        shl_room a k (omega arith),
        shl_room b k (omega arith),
        carry-lt a k (omega arith) w.0,
      ))

  value_three :
      value (shl_loop words 3 k default 0) ≡ value words * (2 ^ (64 * 3) * 2 ^ k) % 2 ^ 256
  value_three =
      rw by_three_words
        (omega (arith, pow_pos k, shl_split a k (omega arith), shl_room a k (omega arith)))

  value_four :
      (n : ℕ)
      → 4 ≤ n
      → value (shl_loop words n k default 0) ≡ value words * (2 ^ (64 * n) * 2 ^ k) % 2 ^ 256
  value_four n h =
      let e : 64 * n ≡ 256 + 64 * (n - 4) = omega arith in
      rw (by_four_words n h, e, pow-add 256 (64 * (n - 4))) (omega arith)

  value_any :
      (n : ℕ)
      → value (shl_loop words n k default 0) ≡ value words * (2 ^ (64 * n) * 2 ^ k) % 2 ^ 256
  value_any zero = value_no
  value_any (suc zero) = value_one
  value_any (suc (suc zero)) = value_two
  value_any (suc (suc (suc zero))) = value_three
  value_any (suc (suc (suc (suc n)))) = value_four (suc (suc (suc (suc n)))) (omega arith)

  words_any : (n : ℕ) → IsUint256 (shl_loop words n k default 0)
  words_any zero = rw by_no_words (
      omega (
        arith,
        shl_room a k (omega arith),
        shl_room b k (omega arith),
        shl_room c k (omega arith),
        shl_room d k (omega arith),
        carry-lt a k (omega arith) w.0,
        carry-lt b k (omega arith) w.1,
        carry-lt c k (omega arith) w.2,
      ))
  words_any (suc zero) = rw by_one_words (
      omega (
        arith,
        shl_room a k (omega arith),
        shl_room b k (omega arith),
        shl_room c k (omega arith),
        carry-lt a k (omega arith) w.0,
        carry-lt b k (omega arith) w.1,
      ))
  words_any (suc (suc zero)) = rw by_two_words (
      omega (
        arith,
        shl_room a k (omega arith),
        shl_room b k (omega arith),
        carry-lt a k (omega arith) w.0,
      ))
  words_any (suc (suc (suc zero))) = rw by_three_words (omega arith)
  words_any (suc (suc (suc (suc n)))) =
      rw (by_four_words (suc (suc (suc (suc n)))) (omega arith)) (omega arith)

-- For every shift, also by 256 or more, `<<` gives the product with the power of two, reduced
-- modulo 2 ^ 256.
pub shl-value :
    (x : Uint256) (shift : ℕ) → IsUint256 x → value (shl x shift) ≡ value x * 2 ^ shift % 2 ^ 256
unfolding shl
shl-value (a ∷ b ∷ c ∷ d ∷ []) shift w =
    let e : shift ≡ 64 * (shift / 64) + shift % 64 = omega arith in
    value_any a b c d (shift % 64) (omega arith) w (shift / 64)
    ∙ ap (λ (t : ℕ). value (a ∷ b ∷ c ∷ d ∷ []) * t % 2 ^ 256)
        (sym (ap (λ (t : ℕ). 2 ^ t) e ∙ pow-add (64 * (shift / 64)) (shift % 64)))
shl-value _ shift w = absurd w

pub shl-IsUint256 : (x : Uint256) (shift : ℕ) → IsUint256 x → IsUint256 (shl x shift)
unfolding shl
shl-IsUint256 (a ∷ b ∷ c ∷ d ∷ []) shift w =
    words_any a b c d (shift % 64) (omega arith) w (shift / 64)
shl-IsUint256 _ shift w = absurd w
