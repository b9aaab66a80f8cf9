-- ===== src/Xoshiro/Tests.antt =====
-- Concrete runs of the generators.
use kasop.Common.{ℕ, ◌≡◌, ◌≢◌, refl, ap, arith}
use kasop.Xoshiro.{State, rotl, shl, next_u64, next_plus_plus, long_jump, zero_state}
use kasop.Xoshiro.Linear.{next_plus_plus-next_u64}
use kasop.Xoshiro.Jump.{sum_of, with_word, long_jump-with_word}

abbrev seed : State
seed = record { s0 = 1; s1 = 2; s2 = 3; s3 = 4 }

seed_result : (next_u64 seed).1 ≡ 11520
unfolding next_u64 rotl shl
seed_result = refl

next_plus_plus-next_u64_example : (next_plus_plus seed).0 ≡ (next_u64 seed).0
next_plus_plus-next_u64_example = next_plus_plus-next_u64 seed

s0_of : State → ℕ
s0_of s = s.s0

seed-ne-zero : seed ≢ zero_state
unfolding s0_of
seed-ne-zero e = let h : s0_of seed ≡ s0_of zero_state = ap s0_of e in absurd (omega arith)

long_jump-with_word_example :
    long_jump seed
    ≡ with_word 0x39109bb02acbe635 (
        with_word 0x77710069854ee241
          (with_word 0xc5004e441c522fb3 (sum_of 0x76e15d3efefdcbbf seed)))
long_jump-with_word_example = long_jump-with_word seed
