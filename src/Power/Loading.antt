-- ===== src/Power/Loading.antt =====
-- Programs for the PIC: which files make one, and what it holds.
use kasop.Common.{
  ℕ, ◌/◌, ◌%◌, ◌^◌, List, [], ◌∷◌, ◌++◌, length, Outcome, ok, err, ErrorKind, ◌==◌, ◌≡◌, ◌≢◌, ◌⊎◌,
  inl, inr, refl, ap, ◌∙◌, arith, Bool-cases, sym,
}
use mathlib.Core.List.{append_assoc, append-nil}
use kasop.Power.Flash.{distance_to, to_bytes}
use kasop.Power.Firmware.{
  PicProgram, from_bytes, read_lines, read_program, parse_line, with_context,
}
use kasop.Power.Pic.{Is14Bit}
use kasop.Power.Program.{Fits}

-- Data of 6400 bytes are a program, which fits into the flash if its words have 14 bits, and other
-- data are an error.
pub from_bytes-Fits :
    (bytes : List ℕ)
    → ((length bytes ≢ 6400) × (from_bytes bytes ≡ err ErrorKind.power))
      ⊎ ((length bytes ≡ 6400)
          × ((program : PicProgram) × (from_bytes bytes ≡ ok program)
              × (program.bytes ≡ bytes)
              × (Is14Bit bytes → Fits program)))
unfolding from_bytes distance_to to_bytes
from_bytes-Fits bytes = elim (Bool-cases (length bytes == 6400)) [
  | inr other ↦ inl (ground arith, rw other refl)
  | inl same ↦
      let filled : length bytes ≡ 6400 = ground arith in
      inr (
        filled,
        (
          record {
            load_addr = record { address = 0x300 };
            prog_size = record { words = 0xc80 };
            bytes = bytes;
          },
          rw same refl,
          refl,
          λ words. record {
            sector = refl;
            sectors = refl;
            filled = filled;
            words = words;
            inside = omega arith;
          },
        ),
      )
]

-- The bytes of words, the higher one first.
pub big_endian : List ℕ → List ℕ
big_endian [] = []
big_endian (w ∷ ws) = w / 2 ^ 8 % 2 ^ 8 ∷ w % 2 ^ 8 ∷ big_endian ws

module _ {L : Type 0} (from_str_radix_16 : L → Outcome ℕ) where
  -- The words of lines that are all read and parsed.
  abbrev pub Parsed : List (Outcome L) → List ℕ → Type 0
  Parsed [] [] = Unit {0}
  Parsed [] (w ∷ ws) = ⊥
  Parsed (line ∷ lines) [] = ⊥
  Parsed (line ∷ lines) (w ∷ ws) = (parse_line from_str_radix_16 line ≡ ok w) × Parsed lines ws

  read_lines-big_endian :
      (lines : List (Outcome L)) (words bytes : List ℕ)
      → Parsed lines words
      → read_lines from_str_radix_16 lines bytes ≡ ok (bytes ++ big_endian words)
  unfolding read_lines big_endian with_context
  read_lines-big_endian [] [] bytes h = ap ok (sym (append-nil bytes))
  read_lines-big_endian [] (w ∷ ws) bytes h = absurd h
  read_lines-big_endian (line ∷ lines) [] bytes h = absurd h
  read_lines-big_endian (line ∷ lines) (w ∷ ws) bytes (parsed, h) = rw parsed (
      read_lines-big_endian lines ws (bytes ++ w / 2 ^ 8 % 2 ^ 8 ∷ w % 2 ^ 8 ∷ []) h
      ∙ ap ok (append_assoc bytes (w / 2 ^ 8 % 2 ^ 8 ∷ w % 2 ^ 8 ∷ []) (big_endian ws)))

  -- A file whose lines are all read and parsed gives what its words give as bytes, the higher byte of
  -- each word first.
  pub read_program-big_endian :
      (lines : List (Outcome L)) (words : List ℕ)
      → Parsed lines words
      → read_program from_str_radix_16 lines ≡ from_bytes (big_endian words)
  unfolding read_program
  read_program-big_endian lines words h = rw (read_lines-big_endian lines words [] h) refl
