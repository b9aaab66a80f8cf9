-- ===== src/Power/Flash.antt =====
-- Words and addresses of the PIC's flash in src/power.rs, and what the parsers of its sections share.
use kasop.Common.{
  ℕ, zero, suc, ◌+◌, ◌-◌, ◌*◌, ◌/◌, ◌%◌, ◌^◌, List, [], ◌∷◌, get_elem?, Outcome, ok, assert, expect,
  leb, ◌==◌, ◌>>=◌, ◌>>◌,
}

-- A number of words of 14 bits, each of which takes two bytes.
pub record PicWords : Type 0 where
  pub words : ℕ

unfoldable pub to_bytes : PicWords → ℕ
to_bytes w = w.words * 2

-- `PicWords::from_bytes`.
unfoldable pub words_of_bytes : ℕ → Outcome PicWords
words_of_bytes num_bytes = do
  assert (num_bytes % 2 == 0)
  assert (leb (num_bytes / 2) 0xffff)
  ok (record { words = (num_bytes / 2) % 2 ^ 16 })

pub record PicAddress : Type 0 where
  pub address : ℕ

-- The last address counts.
unfoldable pub distance_to : PicAddress → PicAddress → Outcome PicWords
distance_to start end = do
  assert (leb start.address end.address)
  ok (record { words = (end.address - start.address + 1) % 2 ^ 16 })

unfoldable pub offset : PicAddress → PicWords → PicAddress
offset start distance = record { address = (start.address + distance.words) % 2 ^ 16 }

abbrev pub blocks : ℕ → ℕ → ℕ × ℕ
blocks size block_size = (size / block_size, size % block_size)

-- `collect` of a range: the first failure ends it.
unfoldable pub collect : (ℕ → Outcome ℕ) → ℕ → ℕ → Outcome (List ℕ)
collect item i zero = ok []
collect item i (suc n) = do x ← item i; rest ← collect item (i + 1) n; ok (x ∷ rest)

abbrev pub at : List ℕ → ℕ → Outcome ℕ
at bytes i = expect (get_elem? bytes i)

abbrev pub num_chips : ℕ
num_chips = 63
