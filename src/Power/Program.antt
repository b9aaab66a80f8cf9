-- ===== src/Power/Program.antt =====
-- Writing a program into a PIC that follows its commands.
use kasop.Common.{
  ℕ, zero, suc, ◌+◌, ◌*◌, ◌/◌, ◌%◌, ◌^◌, ◌≤◌, ◌<◌, List, [], ◌∷◌, ◌++◌, length, take, drop, ok, ◌≡◌,
  refl, sym, ap, ap₂, ◌∙◌, subst, arith, inl, inr, length-take, length-drop, take-append-drop,
}
use kasop.Common.Done.{Done, Done-ok, Done-continue, Done-weaken, Done-total}
use kasop.Power.{AsyncI2cDev}
use kasop.Power.Flash.{PicAddress, offset}
use kasop.Power.Firmware.{PicProgram}
use kasop.Power.Control.{
  chunks, send_data_to_iic, write_data_to_flash, write_chunks, write_flash, reset, program_pic,
  check_end, read_flash,
}
use kasop.Power.Pic.{Loader, IsPic, Outside, SameOutside, IsBlank, Is14Bit, window}
use kasop.Power.Pointer.{
  same-eq, window-append, get_flash_pointer_lem, set_flash_pointer_check_lem, erase_flash_lem,
  read_flash_lem,
}

window-same :
    (f g : ℕ → ℕ) (at n : ℕ)
    → ((j : ℕ) → at ≤ j → j < at + n → g j ≡ f j)
    → window g at n ≡ window f at n
window-same f g at zero h = refl
window-same f g at (suc n) h =
    ap₂ ◌∷◌ (h at (omega arith) (omega arith))
      (window-same f g (at + 1) n (λ j p q. h j (omega arith) (omega arith)))

-- What is written: the bytes from a word on, and nothing around them.
abbrev pub Written : Loader → ℕ → List ℕ → Loader → Type 0
Written v at bytes w =
    (window w.flash (2 * at) (length bytes) ≡ bytes)
    × SameOutside (2 * at) (2 * at + length bytes) v.flash w.flash

-- A block, and the blocks behind it.
blocks_join :
    (n at : ℕ) (bytes : List ℕ) (v u w : Loader)
    → length bytes ≡ suc n * 16
    → window u.flash (2 * at) 16 ≡ take 16 bytes
    → SameOutside (2 * at) (2 * at + 16) v.flash u.flash
    → Written u (at + 8) (drop 16 bytes) w
    → Written v at bytes w
blocks_join n at bytes v u w len first around later =
    let rest : length (drop 16 bytes) ≡ n * 16 = omega (arith, length-drop 16 bytes) in
    let kept : window w.flash (2 * at) 16 ≡ window u.flash (2 * at) 16 =
      window-same u.flash w.flash (2 * at) 16 (λ j p q. later.1 j (inl (omega arith))) in
    let place : 2 * (at + 8) ≡ 2 * at + 16 = omega arith in
    let size : length bytes ≡ 16 + length (drop 16 bytes) = omega (arith, rest) in
    let tail : window w.flash (2 * at + 16) (length (drop 16 bytes)) ≡ drop 16 bytes =
      rw place at (later.0) in
    (
      ap (window w.flash (2 * at)) size
          ∙ sym (window-append w.flash (2 * at) 16 (length (drop 16 bytes)))
          ∙ ap₂ ◌++◌ (kept ∙ first) tail
          ∙ take-append-drop 16 bytes,
      λ j o. later.1 j (beyond j size o) ∙ around j (before j size o),
    )
  where
    beyond :
        (j : ℕ)
        → length bytes ≡ 16 + length (drop 16 bytes)
        → Outside (2 * at) (2 * at + length bytes) j
        → Outside (2 * (at + 8)) (2 * (at + 8) + length (drop 16 bytes)) j
    beyond j e (inl p) = inl (omega arith)
    beyond j e (inr p) = inr (omega arith)

    before :
        (j : ℕ)
        → length bytes ≡ 16 + length (drop 16 bytes)
        → Outside (2 * at) (2 * at + length bytes) j
        → Outside (2 * at) (2 * at + 16) j
    before j e (inl p) = inl p
    before j e (inr p) = inr (omega arith)

abbrev twice : ℕ → ℕ
twice zero = 0
twice (suc n) = suc (suc (twice n))

take-Is14Bit : (n : ℕ) (bytes : List ℕ) → Is14Bit bytes → Is14Bit (take (twice n) bytes)
take-Is14Bit zero bytes h = tt
take-Is14Bit (suc n) [] h = tt
take-Is14Bit (suc n) (hi ∷ []) h = absurd h
take-Is14Bit (suc n) (hi ∷ lo ∷ rest) h = (h.0, h.1, take-Is14Bit n rest h.2)

drop-Is14Bit : (n : ℕ) (bytes : List ℕ) → Is14Bit bytes → Is14Bit (drop (twice n) bytes)
drop-Is14Bit zero bytes h = h
drop-Is14Bit (suc n) [] h = tt
drop-Is14Bit (suc n) (hi ∷ []) h = absurd h
drop-Is14Bit (suc n) (hi ∷ lo ∷ rest) h = drop-Is14Bit n rest h.2

-- Behind a block that was burnt, the place of the others is still blank.
rest_blank :
    (n : ℕ) (bytes : List ℕ) (v w : Loader)
    → length bytes ≡ suc n * 16
    → IsBlank (2 * v.pointer) (2 * v.pointer + length bytes) v.blank
    → SameOutside (2 * v.pointer) (2 * v.pointer + 16) v.blank w.blank
    → w.pointer ≡ v.pointer + 8
    → IsBlank (2 * w.pointer) (2 * w.pointer + length (drop 16 bytes)) w.blank
rest_blank n bytes v w len before around moved j lo hi =
    around j (inr (omega arith)) ∙ before j (omega arith) (omega (arith, length-drop 16 bytes))

-- A program of whole sectors of 14-bit words, at the start of one, that ends within the address
-- space.
pub record Fits (program : PicProgram) : Type 0 where
  pub sector : program.load_addr.address % 32 ≡ 0
  pub sectors : program.prog_size.words % 32 ≡ 0
  pub filled : length program.bytes ≡ 2 * program.prog_size.words
  pub words : Is14Bit program.bytes
  pub inside : program.load_addr.address + program.prog_size.words < 2 ^ 16

at_end :
    (program : PicProgram) (end : PicAddress) (w : Loader)
    → Fits program
    → end.address ≡ w.pointer
    → w.pointer ≡ program.load_addr.address + 8 * (length program.bytes / 16)
    → check_end program end ≡ ok tt
unfolding check_end offset
at_end program end w fits e e' =
    rw
      (same-eq end.address ((program.load_addr.address + program.prog_size.words) % 2 ^ 16)
        (omega arith))
      refl

module _ {B : Type 0} (inner : AsyncI2cDev B) (hashboard_idx : ℕ) (May : Type 0)
    (Shows : B → Loader → Type 0) (pic : IsPic inner hashboard_idx May Shows) where
  write_chunks_lem :
      (n rounds : ℕ) (bytes : List ℕ) (s : B) (v : Loader)
      → length bytes ≡ n * 16
      → length bytes ≤ rounds
      → Is14Bit bytes
      → IsBlank (2 * v.pointer) (2 * v.pointer + length bytes) v.blank
      → Shows s v
      → Done May (write_chunks inner hashboard_idx (chunks 16 rounds bytes) s) (λ t _.
        (w : Loader) × Shows t w × Written v v.pointer bytes w × (w.pointer ≡ v.pointer + 8 * n))
  unfolding write_chunks chunks send_data_to_iic write_data_to_flash
  write_chunks_lem zero zero [] s v len le words clear h =
      Done-ok (v, h, (refl, λ j o. refl), omega arith)
  write_chunks_lem zero (suc rounds) [] s v len le words clear h =
      Done-ok (v, h, (refl, λ j o. refl), omega arith)
  write_chunks_lem zero rounds (x ∷ xs) s v len le words clear h = absurd (omega arith)
  write_chunks_lem (suc n) rounds [] s v len le words clear h = absurd (omega arith)
  write_chunks_lem (suc n) zero (x ∷ xs) s v len le words clear h = absurd (omega arith)
  write_chunks_lem (suc n) (suc rounds) (x ∷ xs) s v len le words clear h =
      let block : length (take 16 (x ∷ xs)) ≡ 16 = omega (arith, length-take 16 (x ∷ xs)) in
      Done-continue (pic.on_send s v (take 16 (x ∷ xs)) block h) (λ t _ p.
        Done-continue
          (pic.on_burn t (record v { buffer = take 16 (x ∷ xs) }) block
            (take-Is14Bit 8 (x ∷ xs) words) (λ j lo hi. clear j lo (omega arith)) p)
          (λ t' _ q.
            Done-weaken
              (write_chunks_lem n rounds (drop 16 (x ∷ xs)) t' q.0
                (omega (arith, length-drop 16 (x ∷ xs))) (omega (arith, length-drop 16 (x ∷ xs)))
                (drop-Is14Bit 8 (x ∷ xs) words) (rest_blank n (x ∷ xs) v q.0 len clear q.2.2 q.2.3)
                q.1)
              (λ u _ r. (
                r.0,
                r.1,
                blocks_join n v.pointer (x ∷ xs) v q.0 r.0 len q.2.0 q.2.1
                    (subst (λ at. Written q.0 at (drop 16 (x ∷ xs)) r.0) q.2.3 r.2),
                omega (arith, r.3, q.2.3),
              ))))

  write_flash_lem :
      (n : ℕ) (bytes : List ℕ) (a : PicAddress) (s : B) (v : Loader)
      → length bytes ≡ n * 16
      → a.address < 2 ^ 16
      → Is14Bit bytes
      → IsBlank (2 * a.address) (2 * a.address + length bytes) v.blank
      → Shows s v
      → Done May (write_flash inner hashboard_idx a bytes s) (λ t _.
        (w : Loader) × Shows t w × Written v a.address bytes w × (w.pointer ≡ a.address + 8 * n))
  unfolding write_flash
  write_flash_lem n bytes a s v len lt words clear h =
      rw (same-eq (length bytes % 16) 0 (omega arith)) (
        Done-continue (set_flash_pointer_check_lem inner hashboard_idx May Shows pic s v a lt h)
          (λ t _ p.
            write_chunks_lem n (length bytes) bytes t (record v { pointer = a.address }) len
              (omega arith) words clear p))

  reset_lem :
      (s : B) (v : Loader)
      → Shows s v
      → Done May
          (reset inner hashboard_idx s)
          (λ t _. (w : Loader) × Shows t w × (w.flash ≡ v.flash))
  unfolding reset
  reset_lem s v h =
      Done-continue (pic.on_filler s v h)
        (λ t _ p. Done-weaken (pic.on_reset t p.0 p.1) (λ u _ q. (q.0, q.1, q.2 ∙ p.2)))

  -- What `program_pic` does to a PIC that follows its commands: never a panic, an error only if a
  -- command fails, and otherwise the flash holds the program and is unchanged around it.
  pub program_pic-Done :
      (program : PicProgram) (s : B) (v : Loader)
      → Fits program
      → Shows s v
      → Done May
          (program_pic inner hashboard_idx program s)
          (λ t _. (w : Loader) × Shows t w × Written v program.load_addr.address program.bytes w)
  unfolding program_pic
  program_pic-Done program s v fits h = rw (same-eq (length program.bytes % 16) 0 (omega arith)) (
      Done-continue (reset_lem s v h) (λ t1 _ p1.
        Done-continue
          (erase_flash_lem inner hashboard_idx May Shows pic t1 p1.0 program.load_addr
            program.prog_size (omega arith) fits.sector fits.sectors p1.1)
          (λ t2 _ p2.
            Done-continue
              (write_flash_lem (length program.bytes / 16) program.bytes program.load_addr t2 p2.0
                (omega arith) (omega arith) fits.words
                (λ j lo hi. p2.3 j lo (omega (arith, fits.filled))) p2.1)
              (λ t3 _ p3.
                Done-continue (get_flash_pointer_lem inner hashboard_idx May Shows pic t3 p3.0 p3.1)
                  (λ t4 end p4. rw (at_end program end p3.0 fits p4.1 p3.3) (
                    Done-ok (
                      p3.0,
                      p4.0,
                      (p3.2.0, λ j o. p3.2.1 j o ∙ p2.2 j (resized j o) ∙ ap (λ f. f j) p1.2),
                    )))))))
    where
      resized :
          (j : ℕ)
          → Outside
              (2 * program.load_addr.address)
              (2 * program.load_addr.address + length program.bytes)
              j
          → Outside
              (2 * program.load_addr.address)
              (2 * (program.load_addr.address + program.prog_size.words))
              j
      resized j (inl p) = inl p
      resized j (inr p) = inr (omega arith)

module _ {B : Type 0} (inner : AsyncI2cDev B) (hashboard_idx : ℕ) (Shows : B → Loader → Type 0)
    (pic : IsPic inner hashboard_idx ⊥ Shows) where
  -- On a PIC that follows its commands and fails none of them, a program that fits is written without
  -- an error, and reading its place in the flash then gives its bytes.
  pub program_pic-read_flash :
      (program : PicProgram) (s : B) (v : Loader)
      → Fits program
      → Shows s v
      → (t : B) × (u : B) × (program_pic inner hashboard_idx program s ≡ (t, ok tt))
        × (read_flash inner hashboard_idx program.load_addr program.prog_size t
            ≡ (u, ok program.bytes))
  program_pic-read_flash program s v fits h =
      let (t, _, written, (w, shown, there)) =
        Done-total (program_pic-Done inner hashboard_idx ⊥ Shows pic program s v fits h) in
      let (u, bytes, gave, (_, _, _, same)) = Done-total (
        read_flash_lem inner hashboard_idx ⊥ Shows pic t w program.load_addr program.prog_size
          (omega arith) (omega arith) shown) in
      (
        t,
        u,
        written,
        subst
            (λ (bs : List ℕ).
              read_flash inner hashboard_idx program.load_addr program.prog_size t ≡ (u, ok bs))
            (same ∙ ap (window w.flash (2 * program.load_addr.address)) (sym fits.filled) ∙ there.0)
            gave,
      )
