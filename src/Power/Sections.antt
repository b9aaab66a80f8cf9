-- ===== src/Power/Sections.antt =====
-- What the parser of the section with the bad cores gives.
use kasop.Common.{
  ℕ, zero, suc, ◌+◌, ◌*◌, ◌/◌, ◌%◌, ◌^◌, ◌≤◌, ◌<◌, bit_and, List, [], ◌∷◌, length, get_elem?,
  get_or, none, some, Outcome, ok, panic, ◌==◌, if◌then◌else◌, ◌≡◌, ◌≢◌, ◌⊎◌, inl, inr, refl, ap,
  ◌∙◌, arith, Bool-cases,
}
use kasop.Power.Flash.{collect, at, num_chips}
use kasop.Power.Badcore
use kasop.Power.Badcore.{FlashBadcore}

-- Every item of a range that all succeed.
pub collect_lem :
    (item : ℕ → Outcome ℕ) (value : ℕ → ℕ) (n i : ℕ)
    → ((j : ℕ) → i ≤ j → j < i + n → item j ≡ ok (value j))
    → (xs : List ℕ) × (collect item i n ≡ ok xs)
      × (length xs ≡ n)
      × ((k : ℕ) → k < n → get_elem? xs k ≡ some (value (i + k)))
unfolding collect
collect_lem item value zero i good = ([], refl, refl, λ k lt. absurd (omega arith))
collect_lem item value (suc n) i good =
    let (xs, done, len, each) =
      collect_lem item value n (i + 1) (λ j p q. good j (omega arith) (omega arith)) in
    (value i ∷ xs, rw (good i (omega arith) (omega arith), done) refl, ap suc len, places xs each)
  where
    places :
        (xs : List ℕ)
        → ((k : ℕ) → k < n → get_elem? xs k ≡ some (value (i + 1 + k)))
        → (k : ℕ) → k < suc n
        → get_elem? (value i ∷ xs) k ≡ some (value (i + k))
    places xs each zero lt = ap (λ j. some (value j)) (omega arith)
    places xs each (suc k) lt = each k (omega arith) ∙ ap (λ j. some (value j)) (omega arith)

pub at-lt : (xs : List ℕ) (i : ℕ) → i < length xs → at xs i ≡ ok (get_or xs i 0)
at-lt [] i lt = absurd (omega arith)
at-lt (x ∷ xs) zero lt = refl
at-lt (x ∷ xs) (suc i) lt = at-lt xs i (omega arith)

-- The number of bad cores of a chip: a half of every second byte of the section, the upper half for
-- an even chip.
pub bad_cores_at : List ℕ → ℕ → ℕ
bad_cores_at bytes i =
    let b = get_or bytes (2 * (i / 2) + 1) 0 in if i % 2 == 0 then b / 2 ^ 4 else bit_and b 0x0f

bad_core_lem :
    (bytes : List ℕ) (i : ℕ)
    → length bytes ≡ 0x40
    → i < num_chips
    → Badcore.bad_core bytes i ≡ ok (bad_cores_at bytes i)
unfolding Badcore.bad_core bad_cores_at
bad_core_lem bytes i len lt = elim (Bool-cases (i % 2 == 0)) [
  | inl even ↦
      let e : 2 * (i / 2) + 1 ≡ i + 1 = ground arith in
      rw (even, e, at-lt bytes (i + 1) (omega arith)) refl
  | inr odd ↦
      let e : 2 * (i / 2) + 1 ≡ i = ground arith in rw (odd, e, at-lt bytes i (omega arith)) refl
]

-- `FlashBadcore::parse` panics exactly on data of another size than 64 bytes; it gives nothing if the
-- first byte is not the magic one, and else the counts of all 63 chips.
pub badcore_parse_lem :
    (bytes : List ℕ)
    → ((length bytes ≢ 0x40) × (Badcore.parse bytes ≡ panic))
      ⊎ ((length bytes ≡ 0x40)
          × (((get_or bytes 0 0 ≢ Badcore.magic) × (Badcore.parse bytes ≡ ok none))
              ⊎ ((get_or bytes 0 0 ≡ Badcore.magic)
                  × ((flash : FlashBadcore) × (Badcore.parse bytes ≡ ok (some flash))
                      × (length flash.bad_cores ≡ num_chips)
                      × ((i : ℕ)
                          → i < num_chips
                          → get_elem? flash.bad_cores i ≡ some (bad_cores_at bytes i))))))
unfolding Badcore.parse Badcore.parse_valid
badcore_parse_lem bytes = elim (Bool-cases (length bytes == 0x40)) [
  | inr other ↦ inl (ground arith, rw other refl)
  | inl same ↦
      let len : length bytes ≡ 0x40 = ground arith in
      let first = at-lt bytes 0 (omega arith) in
      inr (
        len,
        elim (Bool-cases (get_or bytes 0 0 == Badcore.magic)) [
          | inr bad ↦ inl (ground arith, rw (same, first, bad) refl)
          | inl magic ↦
              let (xs, done, size, each) =
                collect_lem (Badcore.bad_core bytes) (bad_cores_at bytes) num_chips 0
                  (λ j p q. bad_core_lem bytes j len (omega arith)) in
              inr (
                ground arith,
                (
                  record { bad_cores = xs },
                  rw (same, first, magic, done) refl,
                  size,
                  λ i lt. each i lt ∙ ap (λ j. some (bad_cores_at bytes j)) (omega arith),
                ),
              )
        ],
      )
]
