-- ===== src/Power/Frequencies.antt =====
-- What the parser of the section with the frequencies gives.
use kasop.Common.{
  ℕ, ◌+◌, ◌-◌, ◌*◌, ◌%◌, ◌^◌, ◌<◌, bit_or, List, length, get_elem?, get_or, none, some, ok, panic,
  ◌==◌, ◌≡◌, ◌≢◌, ◌⊎◌, inl, inr, refl, ap, ap₂, ◌∙◌, arith, Bool-cases,
}
use kasop.Common.Bits.Fields.{or_as_sum, mask_as_mod}
use kasop.Power.Flash.{num_chips, at}
use kasop.Power.Sections.{collect_lem, at-lt}
use kasop.Power.Freq
use kasop.Power.Freq.{FlashFreq, step_down_of, two_nibbles, chip_freq}

-- Two half bytes, each in a byte of its own.
two_nibbles_lem : (high low : ℕ) → two_nibbles high low ≡ high % 16 * 16 + low % 16
unfolding two_nibbles
two_nibbles_lem high low =
    ap₂ (λ (x y : ℕ). bit_or (x * 2 ^ 4) y) (mask_as_mod 4 high) (mask_as_mod 4 low)
    ∙ or_as_sum 4 (high % 16) (low % 16) (omega arith)

-- The index of a chip's frequency: a byte less the step, modulo 256.
pub freq_at : List ℕ → ℕ → ℕ
freq_at bytes i = (get_or bytes (3 + i * 2) 0 + 2 ^ 8 - step_down_of (get_or bytes 0 0)) % 2 ^ 8

chip_freq_lem :
    (bytes : List ℕ) (i : ℕ)
    → length bytes ≡ 0x80
    → i < num_chips
    → chip_freq bytes (step_down_of (get_or bytes 0 0)) i ≡ ok (freq_at bytes i)
unfolding chip_freq freq_at
chip_freq_lem bytes i len lt = rw (at-lt bytes (3 + i * 2) (omega arith)) refl

-- What a section of the right size with the magic byte says.
abbrev pub Says : List ℕ → FlashFreq → Type 0
Says bytes flash =
    (flash.pic_temp_offset ≡ get_or bytes 2 0 % 16 * 16 + get_or bytes 4 0 % 16)
    × (flash.base_freq_index ≡ get_or bytes 6 0 % 16 * 16 + get_or bytes 8 0 % 16)
    × (length flash.freq_index ≡ num_chips)
    × ((i : ℕ) → i < num_chips → get_elem? flash.freq_index i ≡ some (freq_at bytes i))

valid_lem :
    (bytes : List ℕ)
    → length bytes ≡ 0x80
    → (flash : FlashFreq) × (Freq.parse_valid bytes ≡ ok (some flash)) × Says bytes flash
unfolding Freq.parse_valid
valid_lem bytes len =
    let (xs, done, size, each) =
      collect_lem (chip_freq bytes (step_down_of (get_or bytes 0 0))) (freq_at bytes) num_chips 0
        (λ j p q. chip_freq_lem bytes j len (omega arith)) in
    let byte : (i : ℕ) → i < 9 → at bytes i ≡ ok (get_or bytes i 0) =
      λ i lt. at-lt bytes i (omega arith) in
    (
      record {
        pic_temp_offset = two_nibbles (get_or bytes 2 0) (get_or bytes 4 0);
        base_freq_index = two_nibbles (get_or bytes 6 0) (get_or bytes 8 0);
        freq_index = xs;
      },
      rw
          (
            byte 0 (omega arith),
            byte 2 (omega arith),
            byte 4 (omega arith),
            byte 6 (omega arith),
            byte 8 (omega arith),
            done,
          )
          refl,
      (
        two_nibbles_lem (get_or bytes 2 0) (get_or bytes 4 0),
        two_nibbles_lem (get_or bytes 6 0) (get_or bytes 8 0),
        size,
        λ i lt. each i lt ∙ ap (λ j. some (freq_at bytes j)) (omega arith),
      ),
    )

-- `FlashFreq::parse` panics exactly on data of another size than 128 bytes; it gives nothing if the
-- second byte is not the magic one, and else the two bytes that are kept in halves and the indexes of
-- all 63 chips, each less the step of the first byte.
pub freq_parse_lem :
    (bytes : List ℕ)
    → ((length bytes ≢ 0x80) × (Freq.parse bytes ≡ panic))
      ⊎ ((length bytes ≡ 0x80)
          × (((get_or bytes 1 0 ≢ Freq.magic) × (Freq.parse bytes ≡ ok none))
              ⊎ ((get_or bytes 1 0 ≡ Freq.magic)
                  × ((flash : FlashFreq) × (Freq.parse bytes ≡ ok (some flash))
                      × Says bytes flash))))
unfolding Freq.parse
freq_parse_lem bytes = elim (Bool-cases (length bytes == 0x80)) [
  | inr other ↦ inl (ground arith, rw other refl)
  | inl same ↦
      let len : length bytes ≡ 0x80 = ground arith in
      let first = at-lt bytes 1 (omega arith) in
      inr (
        len,
        elim (Bool-cases (get_or bytes 1 0 == Freq.magic)) [
          | inr bad ↦ inl (ground arith, rw (same, first, bad) refl)
          | inl magic ↦
              let (flash, done, says) = valid_lem bytes len in
              inr (ground arith, (flash, rw (same, first, magic) done, says))
        ],
      )
]
