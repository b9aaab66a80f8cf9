-- ===== src/Pow/Header/Hex.antt =====
-- src/pow.rs: what `decode_to_slice` gives on every text.
use kasop.Common.{
  ℕ, zero, suc, ◌+◌, ◌-◌, ◌*◌, ◌/◌, ◌%◌, ◌^◌, ◌≤◌, ◌<◌, ◌≢◌, Bool, true, List, [], ◌∷◌, ◌++◌,
  length, All, ltb, ◌==◌, if◌then◌else◌, ◌≡◌, refl, ap, ◌⊎◌, inl, inr, ==_iff, Bool-cases, bit_or,
  arith,
}
use kasop.Common.Bits.Fields.{or_as_sum, bit_or-lt}
use kasop.Pow.Header.{
  odd_length, invalid_string_length, invalid_hex_character, HexResult, decoded, refused, hex_val,
  decode_from, decode_to_slice, is_between,
}

abbrev pub IsHexDigit : ℕ → Type 0
IsHexDigit c = ((b'0' ≤ c) × (c ≤ b'9')) ⊎ (((b'A' ≤ c) × (c ≤ b'F')) ⊎ ((b'a' ≤ c) × (c ≤ b'f')))

-- The character is the digit of the number, in capitals or not.
abbrev pub IsDigitOf : ℕ → ℕ → Type 0
IsDigitOf c v =
    ((v < 10) × (c ≡ b'0' + v))
    ⊎ ((10 ≤ v) × (v < 16) × ((c + 10 ≡ b'A' + v) ⊎ (c + 10 ≡ b'a' + v)))

-- The text has two digits for each byte, the higher one first.
abbrev pub Spells : List ℕ → List ℕ → Type 0
Spells [] [] = Unit {0}
Spells (c ∷ d ∷ text) (b ∷ bytes) =
    ((high : ℕ) × (low : ℕ) × IsDigitOf c high × IsDigitOf d low × (b ≡ 16 * high + low))
    × Spells text bytes
Spells text bytes = ⊥

hex_val-cases :
    (c i : ℕ)
    → (IsHexDigit c × (v : ℕ) × IsDigitOf c v × (v < 16) × (hex_val c i ≡ decoded v))
      ⊎ ((IsHexDigit c → ⊥) × (hex_val c i ≡ refused (invalid_hex_character c i)))
unfolding hex_val
hex_val-cases c i = elim (Bool-cases (is_between b'A' c b'F')) [
  | inl e ↦ inl (
    inr (inl (ground arith, ground arith)),
    c - b'A' + 10,
    inr (omega arith, ground arith, inl (ground arith)),
    ground arith,
    rw e refl,
  )
  | inr e ↦ elim (Bool-cases (is_between b'a' c b'f')) [
    | inl f ↦ inl (
      inr (inr (ground arith, ground arith)),
      c - b'a' + 10,
      inr (omega arith, ground arith, inr (ground arith)),
      ground arith,
      rw e (rw f refl),
    )
    | inr f ↦ elim (Bool-cases (is_between b'0' c b'9')) [
      | inl g ↦ inl (
        inl (ground arith, ground arith),
        c - b'0',
        inl (ground arith, ground arith),
        ground arith,
        rw e (rw f (rw g refl)),
      )
      | inr g ↦ inr (λ h. ground arith, rw e (rw f (rw g refl)))
    ]
  ]
]

-- Where the first character stands that is no digit.
pub record BadAt (text : List ℕ) (start : ℕ) (r : HexResult (List ℕ)) : Type 0 where
  pub front : List ℕ
  pub bad : ℕ
  pub back : List ℕ
  pub split : text ≡ front ++ (bad ∷ back)
  pub digits : All IsHexDigit front
  pub no_digit : IsHexDigit bad → ⊥
  pub result : r ≡ refused (invalid_hex_character bad (start + length front))

pub record Decoded (text : List ℕ) (n : ℕ) (r : HexResult (List ℕ)) : Type 0 where
  pub digits : All IsHexDigit text
  pub bytes : List ℕ
  pub number : length bytes ≡ n
  pub small : All (λ b. b < 256) bytes
  pub spelled : Spells text bytes
  pub result : r ≡ decoded bytes

joined : (v w : ℕ) → v < 16 → w < 16 → bit_or (v * 2 ^ 4 % 2 ^ 8) w ≡ 16 * v + w
joined v w lv lw =
    let f : v * 2 ^ 4 % 2 ^ 8 ≡ v * 2 ^ 4 = omega arith in rw f (omega (arith, or_as_sum 4 v w lw))

decode_from-cases :
    (n i : ℕ) (text : List ℕ)
    → length text ≡ 2 * n
    → Decoded text n (decode_from i text) ⊎ BadAt text i (decode_from i text)
unfolding decode_from
decode_from-cases zero i [] l =
    inl (record { digits = tt; bytes = []; number = refl; small = tt; spelled = tt; result = refl })
decode_from-cases zero i (c ∷ text) l = absurd (omega (arith, l))
decode_from-cases (suc n) i [] l = absurd (omega (arith, l))
decode_from-cases (suc n) i (c ∷ []) l = absurd (omega (arith, l))
decode_from-cases (suc n) i (c ∷ d ∷ text) l = elim (hex_val-cases c i) [
  | inr (bad, e) ↦ inr (record {
    front = [];
    bad = c;
    back = d ∷ text;
    split = refl;
    digits = tt;
    no_digit = bad;
    result = rw e (ap (λ j. refused (invalid_hex_character c j)) (omega arith));
  })
  | inl (hc, v, dv, lv, e) ↦ elim (hex_val-cases d (i + 1)) [
    | inr (bad, f) ↦ inr (record {
      front = c ∷ [];
      bad = d;
      back = text;
      split = refl;
      digits = (hc, tt);
      no_digit = bad;
      result = rw e (rw f (ap (λ j. refused (invalid_hex_character d j)) (omega arith)));
    })
    | inl (hd, w, dw, lw, f) ↦ elim (decode_from-cases n (i + 2) text (omega (arith, l))) [
      | inl k ↦ inl (record {
        digits = (hc, (hd, k.digits));
        bytes = bit_or (v * 2 ^ 4 % 2 ^ 8) w ∷ k.bytes;
        number = ap suc k.number;
        small = (bit_or-lt 8 (v * 2 ^ 4 % 2 ^ 8) w (omega arith) (omega arith), k.small);
        spelled = ((v, w, dv, dw, joined v w lv lw), k.spelled);
        result = rw e (rw f (rw (k.result) refl));
      })
      | inr k ↦ inr (record {
        front = c ∷ d ∷ k.front;
        bad = k.bad;
        back = k.back;
        split = ap (λ x. c ∷ d ∷ x) k.split;
        digits = (hc, (hd, k.digits));
        no_digit = k.no_digit;
        result = rw e (
            rw f (rw (k.result) (ap (λ j. refused (invalid_hex_character k.bad j)) (omega arith))));
      })
    ]
  ]
]

-- A text of an odd number of characters is refused, then one of another number than twice that of
-- the bytes, then one with a character that is no digit, the first one being reported; every other
-- text gives that number of bytes, each with its higher digit before its lower one in the text.
pub decode_to_slice_lem :
    (text : List ℕ) (n : ℕ)
    → ((length text % 2 ≡ 1) × (decode_to_slice text n ≡ refused odd_length))
      ⊎ (((length text % 2 ≡ 0)
            × (length text ≢ 2 * n)
            × (decode_to_slice text n ≡ refused invalid_string_length))
          ⊎ ((length text ≡ 2 * n)
              × (Decoded text n (decode_to_slice text n) ⊎ BadAt text 0 (decode_to_slice text n))))
unfolding decode_to_slice
decode_to_slice_lem text n = elim (Bool-cases (length text % 2 == 0)) [
  | inr odd ↦ inl (ground arith, rw odd refl)
  | inl even ↦ elim (Bool-cases (length text / 2 == n)) [
    | inr other ↦ inr (inl (ground arith, λ e. ground (arith, e), rw even (rw other refl)))
    | inl fits ↦
        let l : length text ≡ 2 * n = ground arith in
        inr (inr (l, rw even (rw fits (decode_from-cases n 0 text l))))
  ]
]

-- The digit of a number below 16, in capitals or not.
abbrev pub hex_digit : Bool → ℕ → ℕ
hex_digit capital v = if ltb v 10 then b'0' + v else (if capital then b'A' else b'a') + (v - 10)

abbrev pub to_hex : Bool → List ℕ → List ℕ
to_hex capital [] = []
to_hex capital (b ∷ bytes) =
    hex_digit capital (b / 16) ∷ hex_digit capital (b % 16) ∷ to_hex capital bytes

hex_val-hex_digit :
    (capital : Bool) (v i : ℕ) → v < 16 → hex_val (hex_digit capital v) i ≡ decoded v
unfolding hex_val
hex_val-hex_digit capital v i h = ground arith

decode_from-to_hex :
    (capital : Bool) (i : ℕ) (bytes : List ℕ)
    → All (λ b. b < 256) bytes
    → decode_from i (to_hex capital bytes) ≡ decoded bytes
unfolding decode_from
decode_from-to_hex capital i [] h = refl
decode_from-to_hex capital i (b ∷ bytes) (hb, h) =
    let e : bit_or (b / 16 * 2 ^ 4 % 2 ^ 8) (b % 16) ≡ b =
      let f : b / 16 * 2 ^ 4 % 2 ^ 8 ≡ b / 16 * 2 ^ 4 = omega arith in
      rw f (omega (arith, or_as_sum 4 (b / 16) (b % 16) (omega arith))) in
    rw (hex_val-hex_digit capital (b / 16) i (omega arith)) (
      rw (hex_val-hex_digit capital (b % 16) (i + 1) (omega arith))
        (rw (decode_from-to_hex capital (i + 2) bytes h) (ap (λ x. decoded (x ∷ bytes)) e)))

length-to_hex : (capital : Bool) (bytes : List ℕ) → length (to_hex capital bytes) ≡ 2 * length bytes
length-to_hex capital [] = refl
length-to_hex capital (b ∷ bytes) = omega (arith, length-to_hex capital bytes)

-- Writing bytes in hexadecimal digits, capital or not, and decoding them gives the bytes.
pub decode_to_slice-to_hex :
    (capital : Bool) (bytes : List ℕ)
    → All (λ b. b < 256) bytes
    → decode_to_slice (to_hex capital bytes) (length bytes) ≡ decoded bytes
unfolding decode_to_slice
decode_to_slice-to_hex capital bytes h =
    let l = length-to_hex capital bytes in
    let even : (length (to_hex capital bytes) % 2 == 0) ≡ true =
      (==_iff _ _).1 (omega (arith, l)) in
    let fits : (length (to_hex capital bytes) / 2 == length bytes) ≡ true =
      (==_iff _ _).1 (omega (arith, l)) in
    rw even (rw fits (decode_from-to_hex capital 0 bytes h))
