-- ===== src/Power/Pointer.antt =====
-- The flash pointer of a PIC that follows its commands, and erasing and reading from it on.
use kasop.Common.{
  ℕ, zero, suc, ◌+◌, ◌*◌, ◌/◌, ◌%◌, ◌^◌, ◌<◌, true, List, ◌∷◌, ◌++◌, length, ◌==◌, ◌≡◌, refl, ap,
  ◌∙◌, arith, ==_iff, dec_lt, inl, inr,
}
use kasop.Common.Done.{Done, Done-ok, Done-continue, Done-weaken}
use kasop.Power.{AsyncI2cDev}
use kasop.Power.Flash.{PicAddress, PicWords, to_bytes}
use kasop.Power.Control.{
  get_flash_pointer, set_flash_pointer, set_flash_pointer_check, erase_sectors, erase_flash,
  erase_flash_sector, read_data_from_iic, read_blocks, read_flash,
}
use kasop.Power.Pic.{Loader, IsPic, Outside, SameOutside, IsBlank, window}

pub same-eq : (a b : ℕ) → a ≡ b → (a == b) ≡ true
same-eq a b e = (==_iff a b).1 e

-- A byte outside of all sectors is outside of the first, and of those behind it.
nearer :
    (n : ℕ) (v : Loader) (j : ℕ)
    → Outside (2 * v.pointer) (2 * v.pointer + 64 * suc n) j
    → Outside (2 * v.pointer) (2 * v.pointer + 64) j
nearer n v j (inl p) = inl p
nearer n v j (inr p) = inr (omega arith)

further :
    (n : ℕ) (v w : Loader) (j : ℕ)
    → Outside (2 * v.pointer) (2 * v.pointer + 64 * suc n) j
    → w.pointer ≡ v.pointer + 32
    → Outside (2 * w.pointer) (2 * w.pointer + 64 * n) j
further n v w j (inl p) e = inl (omega arith)
further n v w j (inr p) e = inr (omega arith)

resized :
    (a : PicAddress) (n : PicWords) (j : ℕ)
    → n.words % 32 ≡ 0
    → Outside (2 * a.address) (2 * (a.address + n.words)) j
    → Outside (2 * a.address) (2 * a.address + 64 * (n.words / 32)) j
resized a n j whole (inl p) = inl p
resized a n j whole (inr p) = inr (omega arith)

pub window-append :
    (f : ℕ → ℕ) (at n m : ℕ) → window f at n ++ window f (at + n) m ≡ window f at (n + m)
window-append f at zero m =
    let e : at + 0 ≡ at = omega arith in let e' : 0 + m ≡ m = omega arith in rw (e, e')
window-append f at (suc n) m =
    let e : at + suc n ≡ at + 1 + n = omega arith in
    let e' : suc n + m ≡ suc (n + m) = omega arith in
    rw (e, e') (ap (◌∷◌ (f at)) (window-append f (at + 1) n m))

-- Blank are the first sector, which those behind it do not change, and those.
blanks_join :
    (n : ℕ) (v t u : Loader)
    → IsBlank (2 * v.pointer) (2 * v.pointer + 64) t.blank
    → t.pointer ≡ v.pointer + 32
    → SameOutside (2 * t.pointer) (2 * t.pointer + 64 * n) t.blank u.blank
    → IsBlank (2 * t.pointer) (2 * t.pointer + 64 * n) u.blank
    → IsBlank (2 * v.pointer) (2 * v.pointer + 64 * suc n) u.blank
blanks_join n v t u first moved around later j lo hi = elim (dec_lt j (2 * v.pointer + 64)) [
  | yes p ↦ around j (inl (omega arith)) ∙ first j lo p
  | no p ↦ later j (omega arith) (omega arith)
]

joined :
    (n : ℕ) (v : Loader) (block rest : List ℕ)
    → block ≡ window v.flash (2 * v.pointer) 16
    → rest ≡ window v.flash (2 * (v.pointer + 8)) (n * 16)
    → block ++ rest ≡ window v.flash (2 * v.pointer) (suc n * 16)
joined n v block rest first later =
    let e : 2 * (v.pointer + 8) ≡ 2 * v.pointer + 16 = omega arith in
    let e' : suc n * 16 ≡ 16 + n * 16 = omega arith in
    rw (first, later, e, e') (window-append v.flash (2 * v.pointer) 16 (n * 16))

module _ {B : Type 0} (inner : AsyncI2cDev B) (hashboard_idx : ℕ) (May : Type 0)
    (Shows : B → Loader → Type 0) (pic : IsPic inner hashboard_idx May Shows) where
  pub get_flash_pointer_lem :
      (s : B) (v : Loader)
      → Shows s v
      → Done May
          (get_flash_pointer inner hashboard_idx s)
          (λ t a. Shows t v × (a.address ≡ v.pointer))
  unfolding get_flash_pointer
  get_flash_pointer_lem s v h =
      Done-continue (pic.on_get_pointer s v h)
        (λ t bytes p. rw (same-eq (length bytes) 2 p.1) (Done-ok (p.0, p.2)))

  pub set_flash_pointer_check_lem :
      (s : B) (v : Loader) (a : PicAddress)
      → a.address < 2 ^ 16
      → Shows s v
      → Done May
          (set_flash_pointer_check inner hashboard_idx a s)
          (λ t _. Shows t (record v { pointer = a.address }))
  unfolding set_flash_pointer_check set_flash_pointer
  set_flash_pointer_check_lem s v a lt h =
      Done-continue (pic.on_set_pointer s v a.address lt h) (λ t _ p.
        Done-continue (get_flash_pointer_lem t (record v { pointer = a.address }) p)
          (λ u b q. rw (same-eq b.address a.address q.1) (Done-ok q.0)))

  -- Sectors are erased one behind the other.
  erase_sectors_lem :
      (n : ℕ) (s : B) (v : Loader)
      → Shows s v
      → Done May (erase_sectors inner hashboard_idx n s) (λ t _.
        (w : Loader) × Shows t w
        × SameOutside (2 * v.pointer) (2 * v.pointer + 64 * n) v.flash w.flash
        × SameOutside (2 * v.pointer) (2 * v.pointer + 64 * n) v.blank w.blank
        × IsBlank (2 * v.pointer) (2 * v.pointer + 64 * n) w.blank)
  unfolding erase_sectors erase_flash_sector
  erase_sectors_lem zero s v h =
      Done-ok (v, h, λ j o. refl, λ j o. refl, λ j lo hi. absurd (omega arith))
  erase_sectors_lem (suc n) s v h = Done-continue (pic.on_erase s v h) (λ t _ p.
      Done-weaken (erase_sectors_lem n t p.0 p.1) (λ u _ q. (
        q.0,
        q.1,
        λ j o. q.2 j (further n v p.0 j o p.2.3) ∙ p.2.0 j (nearer n v j o),
        λ j o. q.3 j (further n v p.0 j o p.2.3) ∙ p.2.1 j (nearer n v j o),
        blanks_join n v p.0 q.0 p.2.2 p.2.3 q.3 q.4,
      )))

  pub erase_flash_lem :
      (s : B) (v : Loader) (a : PicAddress) (n : PicWords)
      → a.address < 2 ^ 16
      → a.address % 32 ≡ 0
      → n.words % 32 ≡ 0
      → Shows s v
      → Done May (erase_flash inner hashboard_idx a n s) (λ t _.
        (w : Loader) × Shows t w
        × SameOutside (2 * a.address) (2 * (a.address + n.words)) v.flash w.flash
        × IsBlank (2 * a.address) (2 * (a.address + n.words)) w.blank)
  unfolding erase_flash
  erase_flash_lem s v a n lt whole blocks_whole h = rw (same-eq (a.address % 32) 0 whole) (
      rw (same-eq (n.words % 32) 0 blocks_whole) (
        Done-continue (set_flash_pointer_check_lem s v a lt h) (λ t _ p.
          Done-weaken (erase_sectors_lem (n.words / 32) t (record v { pointer = a.address }) p)
            (λ u _ q. (
              q.0,
              q.1,
              λ j o. q.2 j (resized a n j blocks_whole o),
              λ j lo hi. q.4 j lo (omega arith),
            )))))

  pub read_data_from_iic_lem :
      (s : B) (v : Loader)
      → Shows s v
      → Done May (read_data_from_iic inner hashboard_idx s) (λ t bytes.
        Shows t (record v { pointer = v.pointer + 8 })
        × (bytes ≡ window v.flash (2 * v.pointer) 16))
  unfolding read_data_from_iic
  read_data_from_iic_lem s v h =
      Done-continue (pic.on_read s v h)
        (λ t bytes p. rw (same-eq (length bytes) 16 (ap length p.1)) (Done-ok p))

  read_blocks_lem :
      (n : ℕ) (s : B) (v : Loader)
      → Shows s v
      → Done May (read_blocks inner hashboard_idx n s) (λ t bytes.
        (w : Loader) × Shows t w
        × (w.flash ≡ v.flash)
        × (bytes ≡ window v.flash (2 * v.pointer) (n * 16)))
  unfolding read_blocks
  read_blocks_lem zero s v h = Done-ok (v, h, refl, refl)
  read_blocks_lem (suc n) s v h = Done-continue (read_data_from_iic_lem s v h) (λ t block p.
      Done-continue (read_blocks_lem n t (record v { pointer = v.pointer + 8 }) p.0)
        (λ u rest q. Done-ok (q.0, q.1, q.2, joined n v block rest p.1 q.3)))

  -- `read_flash` gives the bytes of the words that it is asked for, and changes none.
  pub read_flash_lem :
      (s : B) (v : Loader) (a : PicAddress) (n : PicWords)
      → a.address < 2 ^ 16
      → n.words % 8 ≡ 0
      → Shows s v
      → Done May (read_flash inner hashboard_idx a n s) (λ t bytes.
        (w : Loader) × Shows t w
        × (w.flash ≡ v.flash)
        × (bytes ≡ window v.flash (2 * a.address) (2 * n.words)))
  unfolding read_flash to_bytes
  read_flash_lem s v a n lt whole h = rw (same-eq (n.words * 2 % 16) 0 (omega arith)) (
      Done-continue (set_flash_pointer_check_lem s v a lt h) (λ t _ p.
        Done-weaken (read_blocks_lem (n.words * 2 / 16) t (record v { pointer = a.address }) p)
          (λ u bytes q. (q.0, q.1, q.2, q.3 ∙ ap (window v.flash (2 * a.address)) (omega arith)))))
