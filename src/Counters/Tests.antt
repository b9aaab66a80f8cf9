-- ===== src/Counters/Tests.antt =====
-- A hashchain of two chips with difficulty 64, and one of 63.
use kasop.Common.{ℕ, ◌+◌, ◌*◌, ◌^◌, ◌≤◌, ◌<◌, ok, ◌≡◌, ◌⊎◌, arith}
use kasop.Bm1387.Address.{core_address}
use kasop.Counters.{HashChain, new_hash_chain, add_valid, chip_count}
use kasop.Counters.Totals.{IsHashChain}
use kasop.Counters.Count.{Counted, add_valid-IsHashChain}
use kasop.Counters.Resize.{new_hash_chain-IsHashChain}

abbrev two_chips : HashChain
two_chips = new_hash_chain 2 64 0

-- Chip 1, core 5.
abbrev nonce : ℕ
nonce = 5 * 2 ^ 24 + 1 * 2 ^ 2

two_chips-count : chip_count two_chips ≤ 63
unfolding new_hash_chain
two_chips-count = omega arith

add_valid-IsHashChain_example :
    (g : HashChain) × (add_valid (core_address nonce) two_chips ≡ ok g)
    × IsHashChain g
    × (chip_count g ≡ chip_count two_chips)
    × (((chip_count two_chips ≤ (core_address nonce).chip) × (g ≡ two_chips))
        ⊎ (((core_address nonce).chip < chip_count two_chips)
            × Counted (core_address nonce) two_chips g))
add_valid-IsHashChain_example =
    add_valid-IsHashChain nonce two_chips (new_hash_chain-IsHashChain 2 64 0)
