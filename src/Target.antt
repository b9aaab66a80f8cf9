-- ===== src/Target.antt =====
-- src/target.rs: 256-bit numbers as four 64-bit words, the lowest first, and the compact form of a
-- target. `+=` on words is written with its wrap-around.
pub mod Bytes
pub mod Order
pub mod Shift
pub mod Compact
mod Tests
use Prim.Native.Nat.{compare, Ordering}
use kasop.Common.{ℕ, zero, suc, ◌+◌, ◌-◌, ◌*◌, ◌/◌, ◌%◌, ◌^◌, ◌<◌, bit_and, List, [], ◌∷◌, ◌++◌}
use kasop.Common.{reverse, ltb, leb, if◌then◌else◌, ◌&&◌, get_or, set, take, drop}

-- `Uint256(pub [u64; 4])`.
abbrev pub Uint256 : Type 0
Uint256 = List ℕ

abbrev pub IsUint256 : Uint256 → Type 0
IsUint256 (a ∷ b ∷ c ∷ d ∷ []) = (a < 2 ^ 64) × (b < 2 ^ 64) × (c < 2 ^ 64) × (d < 2 ^ 64)
IsUint256 _ = ⊥

-- The number that the words stand for.
abbrev pub value : List ℕ → ℕ
value [] = 0
value (w ∷ ws) = w + 2 ^ 64 * value ws

abbrev pub default : Uint256
default = 0 ∷ 0 ∷ 0 ∷ 0 ∷ []

pub from_u64 : ℕ → Uint256
from_u64 init = set default 0 init

-- `u64::from_le_bytes` and `u64::to_le_bytes`, for any number of bytes.
unfoldable pub word_from_le_bytes : List ℕ → ℕ
word_from_le_bytes [] = 0
word_from_le_bytes (b ∷ bs) = b + 256 * word_from_le_bytes bs

unfoldable pub word_to_le_bytes : ℕ → ℕ → List ℕ
word_to_le_bytes zero x = []
word_to_le_bytes (suc n) x = (x % 256) ∷ word_to_le_bytes n (x / 256)

-- The words zipped with `chunks_exact(8)`.
unfoldable pub from_chunks : ℕ → List ℕ → List ℕ
unfolding word_from_le_bytes
from_chunks zero bytes = []
from_chunks (suc n) bytes = word_from_le_bytes (take 8 bytes) ∷ from_chunks n (drop 8 bytes)

unfoldable pub from_le_bytes : List ℕ → Uint256
unfolding from_chunks
from_le_bytes bytes = from_chunks 4 bytes

unfoldable pub to_le_bytes : Uint256 → List ℕ
unfolding word_to_le_bytes
to_le_bytes [] = []
to_le_bytes (w ∷ ws) = word_to_le_bytes 8 w ++ to_le_bytes ws

-- `Iterator::cmp`: lexicographic.
unfoldable pub iter_cmp : List ℕ → List ℕ → Ordering
iter_cmp [] [] = Ordering.eq
iter_cmp [] (y ∷ ys) = Ordering.lt
iter_cmp (x ∷ xs) [] = Ordering.gt
iter_cmp (x ∷ xs) (y ∷ ys) = elim (compare x y) [
  | Ordering.lt ↦ Ordering.lt
  | Ordering.eq ↦ iter_cmp xs ys
  | Ordering.gt ↦ Ordering.gt
]

unfoldable pub cmp : Uint256 → Uint256 → Ordering
unfolding iter_cmp
cmp a b = iter_cmp (reverse a) (reverse b)

pub add_at : List ℕ → ℕ → ℕ → List ℕ
add_at ret i x = set ret i ((get_or ret i 0 + x) % 2 ^ 64)

-- The body of the loop over `i`.
pub shl_word : ℕ → ℕ → ℕ → List ℕ → ℕ → List ℕ
unfolding add_at
shl_word original word_shift bit_shift ret i =
    let ret' =
      if ltb bit_shift 64 && ltb (i + word_shift) 4
      then add_at ret (i + word_shift) (original * 2 ^ bit_shift % 2 ^ 64)
      else ret in
    if ltb 0 bit_shift && ltb (i + word_shift + 1) 4
    then add_at ret' (i + word_shift + 1) (original / 2 ^ (64 - bit_shift))
    else ret'

pub shl_loop : List ℕ → ℕ → ℕ → List ℕ → ℕ → List ℕ
unfolding shl_word
shl_loop [] word_shift bit_shift ret i = ret
shl_loop (w ∷ ws) word_shift bit_shift ret i =
    shl_loop ws word_shift bit_shift (shl_word w word_shift bit_shift ret i) (i + 1)

pub shl : Uint256 → ℕ → Uint256
unfolding shl_loop
shl original shift = shl_loop original (shift / 64) (shift % 64) default 0

-- The mantissa and the exponent of a compact target.
pub decode : ℕ → ℕ × ℕ
decode bits =
    let unshifted_expt = bits / 2 ^ 24 in
    if leb unshifted_expt 3
    then (bit_and bits 0xffffff / 2 ^ (8 * (3 - unshifted_expt)), 0)
    else (bit_and bits 0xffffff, 8 * (bits / 2 ^ 24 - 3))

pub u256_from_compact_target : ℕ → Uint256
unfolding decode shl from_u64
u256_from_compact_target bits =
    let (mant, expt) = decode bits in
    if ltb 0x7fffff mant then default else shl (from_u64 mant) expt
