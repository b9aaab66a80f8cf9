-- ===== src/Target/Tests.antt =====
-- Concrete targets.
use kasop.Common.{
  ℕ, ◌-◌, ◌*◌, ◌%◌, ◌^◌, ◌≡◌, List, [], ◌∷◌, ◌++◌, replicate, ltb, if◌then◌else◌, arith,
}
use kasop.Target.{Uint256, value, shl, u256_from_compact_target}
use kasop.Target.Shift.{shl-value}
use kasop.Target.Compact.{exponent, magnitude, u256_from_compact_target-value}

abbrev words : Uint256
words = 1 ∷ 2 ∷ 2 ^ 63 ∷ 4 ∷ []

abbrev more_words : Uint256
more_words = 0 ∷ 2 ∷ 2 ^ 63 ∷ 4 ∷ []

abbrev bytes : List ℕ
bytes = replicate 31 7 ++ (255 ∷ [])

shl-value_example : value (shl words 70) ≡ value words * 2 ^ 70 % 2 ^ 256
shl-value_example = shl-value words 70 (omega arith)

u256_from_compact_target-value_example : value (u256_from_compact_target 0x1d00ffff) ≡ (
    if ltb 0x7fffff (magnitude 0x1d00ffff)
    then 0
    else magnitude 0x1d00ffff * 2 ^ (8 * (exponent 0x1d00ffff - 3)) % 2 ^ 256)
u256_from_compact_target-value_example = u256_from_compact_target-value 0x1d00ffff
