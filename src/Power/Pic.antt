-- ===== src/Power/Pic.antt =====
-- What src/power.rs relies on of the program in the PIC: how its loader answers to commands. The flash
-- is a function from numbers of bytes, two for each word.
use kasop.Common.{
  ℕ, zero, suc, ◌+◌, ◌*◌, ◌/◌, ◌%◌, ◌^◌, ◌≤◌, ◌<◌, Bool, true, List, [], ◌∷◌, length, replicate,
  ◌≡◌, ◌⊎◌,
}
use kasop.Common.Done.{Done}
use kasop.Power.{
  AsyncI2cDev, set_pic_flash_pointer, send_data_command, read_data_command, erase_iic_flash,
  write_data_into_pic, reset_pic, get_pic_flash_pointer,
}
use kasop.Power.Backend
use kasop.Power.Control.{from_be_bytes}

-- The state of the loader.
pub record Loader : Type 0 where
  pub flash : ℕ → ℕ
  -- Which bytes were erased, and not burnt since.
  pub blank : ℕ → Bool
  -- In words.
  pub pointer : ℕ
  pub buffer : List ℕ

abbrev pub Outside : ℕ → ℕ → ℕ → Type 0
Outside lo hi j = (j < lo) ⊎ (hi ≤ j)

-- Outside of a range the flash, or what is blank of it, is as it was.
abbrev pub SameOutside : {A : Type 0} → ℕ → ℕ → (ℕ → A) → (ℕ → A) → Type 0
SameOutside lo hi f g = (j : ℕ) → Outside lo hi j → g j ≡ f j

-- A range is blank.
abbrev pub IsBlank : ℕ → ℕ → (ℕ → Bool) → Type 0
IsBlank lo hi b = (j : ℕ) → lo ≤ j → j < hi → b j ≡ true

-- Words of 14 bits, the higher byte first.
abbrev pub Is14Bit : List ℕ → Type 0
Is14Bit [] = Unit {0}
Is14Bit (hi ∷ []) = ⊥
Is14Bit (hi ∷ lo ∷ rest) = (hi < 2 ^ 6) × (lo < 2 ^ 8) × Is14Bit rest

-- The bytes from a place on.
abbrev pub window : (ℕ → ℕ) → ℕ → ℕ → List ℕ
window f at zero = []
window f at (suc n) = f at ∷ window f (at + 1) n

-- The loader behind a buffer that went into the flash.
abbrev pub Burnt : Loader → Loader → Type 0
Burnt v w =
    (window w.flash (2 * v.pointer) 16 ≡ v.buffer)
    × SameOutside (2 * v.pointer) (2 * v.pointer + 16) v.flash w.flash
    × SameOutside (2 * v.pointer) (2 * v.pointer + 16) v.blank w.blank
    × (w.pointer ≡ v.pointer + 8)

abbrev pub Erased : Loader → Loader → Type 0
Erased v w =
    SameOutside (2 * v.pointer) (2 * v.pointer + 64) v.flash w.flash
    × SameOutside (2 * v.pointer) (2 * v.pointer + 64) v.blank w.blank
    × IsBlank (2 * v.pointer) (2 * v.pointer + 64) w.blank
    × (w.pointer ≡ v.pointer + 32)

-- Nothing is said of a buffer that is burnt over words that are not blank, or of one with words of more
-- than 14 bits, which the flash does not have. `Shows s v`: on the bus in state `s` the PIC waits for a command, with the loader in state `v`. A
-- command may fail where `May` says so.
pub record IsPic {B : Type 0} (inner : AsyncI2cDev B) (hashboard_idx : ℕ) (May : Type 0)
    (Shows : B → Loader → Type 0) : Type 0 where
  pub on_filler :
      (s : B) (v : Loader)
      → Shows s v
      → Done May
          (Backend.write inner hashboard_idx 0 (replicate 16 0) s)
          (λ t _. (w : Loader) × Shows t w × (w.flash ≡ v.flash))
  pub on_reset :
      (s : B) (v : Loader)
      → Shows s v
      → Done May
          (Backend.write inner hashboard_idx reset_pic [] s)
          (λ t _. (w : Loader) × Shows t w × (w.flash ≡ v.flash))
  pub on_set_pointer :
      (s : B) (v : Loader) (address : ℕ)
      → address < 2 ^ 16
      → Shows s v
      → Done May
          (Backend.write inner hashboard_idx set_pic_flash_pointer
            (address / 2 ^ 8 % 2 ^ 8 ∷ address % 2 ^ 8 ∷ [])
            s)
          (λ t _. Shows t (record v { pointer = address }))
  pub on_get_pointer :
      (s : B) (v : Loader)
      → Shows s v
      → Done May
          (Backend.read inner hashboard_idx get_pic_flash_pointer 2 s)
          (λ t bytes. Shows t v × (length bytes ≡ 2) × (from_be_bytes 0 bytes ≡ v.pointer))
  pub on_erase :
      (s : B) (v : Loader)
      → Shows s v
      → Done May
          (Backend.write inner hashboard_idx erase_iic_flash [] s)
          (λ t _. (w : Loader) × Shows t w × Erased v w)
  pub on_send :
      (s : B) (v : Loader) (bytes : List ℕ)
      → length bytes ≡ 16
      → Shows s v
      → Done May
          (Backend.write inner hashboard_idx send_data_command bytes s)
          (λ t _. Shows t (record v { buffer = bytes }))
  pub on_burn :
      (s : B) (v : Loader)
      → length v.buffer ≡ 16
      → Is14Bit v.buffer
      → IsBlank (2 * v.pointer) (2 * v.pointer + 16) v.blank
      → Shows s v
      → Done May
          (Backend.write inner hashboard_idx write_data_into_pic [] s)
          (λ t _. (w : Loader) × Shows t w × Burnt v w)
  pub on_read :
      (s : B) (v : Loader)
      → Shows s v
      → Done May (Backend.read inner hashboard_idx read_data_command 16 s) (λ t bytes.
        Shows t (record v { pointer = v.pointer + 8 })
        × (bytes ≡ window v.flash (2 * v.pointer) 16))
