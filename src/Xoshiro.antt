-- ===== src/Xoshiro.antt =====
-- src/xoshiro256starstar.rs (the generator of nonces) and src/pow/xoshiro.rs (the generator of the
-- hash matrix). A `[u64; 4]` is a record of four numbers; `<<` drops the bits above 2 ^ 64.
pub mod Rotate
pub mod Linear
pub mod Inverse
pub mod Jump
mod Tests
use kasop.Common.{ℕ, zero, suc, ◌+◌, ◌-◌, ◌*◌, ◌/◌, ◌%◌, ◌^◌, ◌<◌, bit_and, bit_or, bit_xor}
use kasop.Common.{List, [], ◌∷◌, Option, some, Bool, not, ◌==◌, if◌then◌else◌}

pub record State : Type 0 where
  pub s0 : ℕ
  pub s1 : ℕ
  pub s2 : ℕ
  pub s3 : ℕ

-- `u64` arithmetic: the wrapping product and sum, and the shift to the left.
abbrev pub wrapping_mul : ℕ → ℕ → ℕ
wrapping_mul a b = a * b % 2 ^ 64

abbrev pub wrapping_add : ℕ → ℕ → ℕ
wrapping_add a b = (a + b) % 2 ^ 64

pub shl : ℕ → ℕ → ℕ
shl x k = x * 2 ^ k % 2 ^ 64

pub rotl : ℕ → ℕ → ℕ
unfolding shl
rotl x k = bit_or (shl x k) (x / 2 ^ (64 - k))

-- `Xoshiro256StarStar::next_u64`: the new state and the result, in the order of the source.
pub next_u64 : State → State × ℕ
unfolding rotl
next_u64 s =
    let result = wrapping_mul (rotl (wrapping_mul s.s1 5) 7) 9 in
    let t = shl s.s1 17 in
    let s2 = bit_xor s.s2 s.s0 in
    let s3 = bit_xor s.s3 s.s1 in
    let s1 = bit_xor s.s1 s2 in
    let s0 = bit_xor s.s0 s3 in
    let s2' = bit_xor s2 t in
    let s3' = rotl s3 45 in (record { s0 = s0; s1 = s1; s2 = s2'; s3 = s3' }, result)

-- `XoShiRo256PlusPlus::u64`.
pub next_plus_plus : State → State × ℕ
unfolding rotl
next_plus_plus s =
    let res = wrapping_add s.s0 (rotl (wrapping_add s.s0 s.s3) 23) in
    let t = shl s.s1 17 in
    let s2 = bit_xor s.s2 s.s0 in
    let s3 = bit_xor s.s3 s.s1 in
    let s1 = bit_xor s.s1 s2 in
    let s0 = bit_xor s.s0 s3 in
    let s2' = bit_xor s2 t in
    let s3' = rotl s3 45 in (record { s0 = s0; s1 = s1; s2 = s2'; s3 = s3' }, res)

abbrev pub zero_state : State
zero_state = record { s0 = 0; s1 = 0; s2 = 0; s3 = 0 }

abbrev pub long_jump_words : List ℕ
long_jump_words =
    0x76e15d3efefdcbbf ∷ 0xc5004e441c522fb3 ∷ 0x77710069854ee241 ∷ 0x39109bb02acbe635 ∷ []

-- The sums `s0` to `s3` of the loop, and a state, word by word.
pub xor_state : State → State → State
xor_state a b = record {
  s0 = bit_xor a.s0 b.s0;
  s1 = bit_xor a.s1 b.s1;
  s2 = bit_xor a.s2 b.s2;
  s3 = bit_xor a.s3 b.s3;
}

pub has_bit : ℕ → ℕ → Bool
has_bit jmp b = not (bit_and jmp (2 ^ b) == 0)

-- `for b in 0..64`, with `left` rounds to go at bit `b`; the pair is the sums and the state.
pub jump_bits : ℕ → ℕ → ℕ → State → State → State × State
jump_bits jmp zero b sums s = (sums, s)
jump_bits jmp (suc left) b sums s =
    jump_bits jmp left (b + 1) (if has_bit jmp b then xor_state sums s else sums) (next_u64 s).0

-- `for jmp in LONG_JUMP`: the sums go on from one word to the next, and the state is
-- overwritten by them behind each word.
pub jump_words : List ℕ → State → State → State
jump_words [] sums s = s
jump_words (jmp ∷ rest) sums s =
    let sums' = (jump_bits jmp 64 0 sums s).0 in jump_words rest sums' sums'

pub long_jump : State → State
unfolding jump_words jump_bits has_bit next_u64
long_jump s = jump_words long_jump_words zero_state s

-- `Xoshiro256StarStarStateIter::next`.
pub iter_next : State → State × Option State
unfolding long_jump
iter_next current = let s = long_jump current in (s, some s)

abbrev pub IsState : State → Type 0
IsState s = (s.s0 < 2 ^ 64) × (s.s1 < 2 ^ 64) × (s.s2 < 2 ^ 64) × (s.s3 < 2 ^ 64)
