-- ===== src/Power/FakeLaws.antt =====
-- The PIC of the tests is one that follows its commands.
use kasop.Common.{
  ℕ, zero, suc, ◌+◌, ◌*◌, ◌/◌, ◌%◌, ◌^◌, ◌<◌, Bool, true, false, ℕ_discrete, List, [], ◌∷◌, ◌++◌,
  length, replicate, ok, ◌==◌, ◌≡◌, refl, sym, ap, ap₂, ◌∙◌, subst, arith, inl, inr,
}
use kasop.Common.Done.{Done}
use mathlib.Core.List.{append_assoc}
use kasop.Power.Backend
use kasop.Power.Backend.{write_all, write_tries, write_retry, after_try, read_bytes}
use kasop.Power.Control.{from_be_bytes}
use kasop.Power.Pic.{Loader, Outside, IsBlank, window, IsPic, Burnt}
use kasop.Power.FakePic.{
  Phase, FakePic, overwrite, burn, execute, finish, feed, feed_all, fake_bus, showing, num_args,
}

overwrite_outside :
    {A : Type 0} (f : ℕ → A) (at : ℕ) (bs : List A) (j : ℕ)
    → Outside at (at + length bs) j
    → overwrite f at bs j ≡ f j
overwrite_outside f at [] j o = refl
overwrite_outside f at (b ∷ bs) j (inl p) =
    ground (arith, overwrite_outside f (at + 1) bs j (inl (omega arith)))
overwrite_outside f at (b ∷ bs) j (inr p) =
    ground (arith, overwrite_outside f (at + 1) bs j (inr (omega arith)))

window-overwrite_later :
    (f : ℕ → ℕ) (at b n lo : ℕ) (bs : List ℕ)
    → at < lo
    → window (overwrite f at (b ∷ bs)) lo n ≡ window (overwrite f (at + 1) bs) lo n
window-overwrite_later f at b zero lo bs lt = refl
window-overwrite_later f at b (suc n) lo bs lt =
    ap₂ ◌∷◌ (ground arith) (window-overwrite_later f at b n (lo + 1) bs (omega arith))

window-overwrite :
    (f : ℕ → ℕ) (at : ℕ) (bs : List ℕ) → window (overwrite f at bs) at (length bs) ≡ bs
window-overwrite f at [] = refl
window-overwrite f at (b ∷ bs) = ap₂ ◌∷◌ (ground arith) (
    window-overwrite_later f at b (length bs) (at + 1) bs (omega arith)
    ∙ window-overwrite f (at + 1) bs)

overwrite-IsBlank :
    (f : ℕ → Bool) (at n : ℕ) → IsBlank at (at + n) (overwrite f at (replicate n true))
overwrite-IsBlank f at zero j lo hi = absurd (omega arith)
overwrite-IsBlank f at (suc n) j lo hi = elim (ℕ_discrete j at) [
  | yes same ↦ ground arith
  | no other ↦ ground (arith, overwrite-IsBlank f (at + 1) n j (omega arith) (omega arith))
]

-- Where the flash is blank, what is burnt is what is there.
burn_blank :
    (f : ℕ → ℕ) (blank : ℕ → Bool) (at : ℕ) (bs : List ℕ)
    → IsBlank at (at + length bs) blank
    → (j : ℕ) → burn f blank at bs j ≡ overwrite f at bs j
burn_blank f blank at [] clear j = refl
burn_blank f blank at (b ∷ bs) clear j =
    let here : blank at ≡ true = clear at (omega arith) (omega arith) in
    let later = burn_blank f blank (at + 1) bs (λ k lo hi. clear k (omega arith) (omega arith)) j in
    rw (here, later) refl

-- Bytes that are written one by one are fed one by one.
write_all-feed :
    (hashboard_idx : ℕ) (bytes : List ℕ) (s : FakePic)
    → write_all fake_bus hashboard_idx bytes s ≡ (feed_all bytes s, ok tt)
unfolding write_all write_retry write_tries after_try
write_all-feed hashboard_idx [] s = refl
write_all-feed hashboard_idx (b ∷ bs) s = write_all-feed hashboard_idx bs (feed s.phase b s)

feed_args :
    (command n : ℕ) (got bytes : List ℕ) (s : FakePic)
    → length bytes ≡ suc n
    → feed_all bytes (record s { phase = Phase.waiting command (suc n) got })
      ≡ finish command (got ++ bytes) s
feed_args command n got [] s e = absurd (omega arith)
feed_args command zero got (b ∷ []) s e = refl
feed_args command zero got (b ∷ b' ∷ bs) s e = absurd (omega arith)
feed_args command (suc n) got (b ∷ bs) s e =
    feed_args command n (got ++ b ∷ []) bs s (omega arith)
    ∙ ap (λ args. finish command args s) (append_assoc got (b ∷ []) bs)

-- A command with arguments, and one without.
with_args :
    (hashboard_idx command n : ℕ) (bytes : List ℕ) (v : Loader)
    → num_args command ≡ suc n
    → length bytes ≡ suc n
    → Backend.write fake_bus hashboard_idx command bytes (showing v)
      ≡ (finish command bytes (showing v), ok tt)
unfolding Backend.write
with_args hashboard_idx command n bytes v e len =
    write_all-feed hashboard_idx (0x55 ∷ 0xaa ∷ command ∷ bytes) (showing v)
    ∙ ap (λ s. (s, ok tt))
        (let more : (suc n == 0) ≡ false = ground arith in
          rw (e, more) (feed_args command n [] bytes (showing v) len))

without_args :
    (hashboard_idx command : ℕ) (v : Loader)
    → num_args command ≡ 0
    → Backend.write fake_bus hashboard_idx command [] (showing v)
      ≡ (finish command [] (showing v), ok tt)
unfolding Backend.write
without_args hashboard_idx command v e =
    write_all-feed hashboard_idx (0x55 ∷ 0xaa ∷ command ∷ []) (showing v)
    ∙ ap (λ s. (s, ok tt)) (rw e refl)

abbrev pub Shows : FakePic → Loader → Type 0
Shows s v = s ≡ showing v

module _ (hashboard_idx : ℕ) where
  on_set_pointer :
      (v : Loader) (address : ℕ)
      → address < 2 ^ 16
      → Done ⊥
          (Backend.write fake_bus hashboard_idx 1
            (address / 2 ^ 8 % 2 ^ 8 ∷ address % 2 ^ 8 ∷ [])
            (showing v))
          (λ t _. Shows t (record v { pointer = address }))
  unfolding from_be_bytes
  on_set_pointer v address lt =
      rw (with_args hashboard_idx 1 1 (address / 2 ^ 8 % 2 ^ 8 ∷ address % 2 ^ 8 ∷ []) v refl refl)
        (record { ends = ap (λ (p : ℕ). showing (record v { pointer = p })) (omega arith) })

  on_get_pointer :
      (v : Loader)
      → Done ⊥
          (Backend.read fake_bus hashboard_idx 8 2 (showing v))
          (λ t bytes. Shows t v × (length bytes ≡ 2) × (from_be_bytes 0 bytes ≡ v.pointer))
  unfolding Backend.read read_bytes from_be_bytes
  on_get_pointer v =
      rw (without_args hashboard_idx 8 v refl) (record { ends = (refl, refl, omega arith) })

  on_read :
      (v : Loader)
      → Done ⊥ (Backend.read fake_bus hashboard_idx 3 16 (showing v)) (λ t bytes.
        Shows t (record v { pointer = v.pointer + 8 })
        × (bytes ≡ window v.flash (2 * v.pointer) 16))
  unfolding Backend.read read_bytes
  on_read v = rw (without_args hashboard_idx 3 v refl) (record { ends = (refl, refl) })

  burnt :
      (v : Loader)
      → length v.buffer ≡ 16
      → IsBlank (2 * v.pointer) (2 * v.pointer + 16) v.blank
      → Burnt v (execute 5 [] v)
  burnt v len clear =
      let clear' =
        subst (λ n. IsBlank (2 * v.pointer) (2 * v.pointer + n) v.blank) (sym len) clear in
      let there = burn_blank v.flash v.blank (2 * v.pointer) v.buffer clear' in
      (
        ap (λ n. window (burn v.flash v.blank (2 * v.pointer) v.buffer) (2 * v.pointer) n) (sym len)
            ∙ ap (λ f. window f (2 * v.pointer) (length v.buffer)) (λ i j. there j i)
            ∙ window-overwrite v.flash (2 * v.pointer) v.buffer,
        λ j o.
            there j
            ∙ overwrite_outside v.flash (2 * v.pointer) v.buffer j
                (subst (λ n. Outside (2 * v.pointer) (2 * v.pointer + n) j) (sym len) o),
        overwrite_outside v.blank (2 * v.pointer) (replicate 16 false),
        refl,
      )

  pub fake-IsPic : IsPic fake_bus hashboard_idx ⊥ Shows
  fake-IsPic = record {
    on_filler = λ s v h.
        rw (h, with_args hashboard_idx 0 15 (replicate 16 0) v refl refl)
          (record { ends = (v, refl, refl) });
    on_reset =
        λ s v h. rw (h, without_args hashboard_idx 7 v refl) (record { ends = (v, refl, refl) });
    on_set_pointer = λ s v address lt h. rw h (on_set_pointer v address lt);
    on_get_pointer = λ s v h. rw h (on_get_pointer v);
    on_erase = λ s v h.
        rw (h, without_args hashboard_idx 4 v refl)
          (record {
            ends = (
              execute 4 [] v,
              refl,
              (
                overwrite_outside v.flash (2 * v.pointer) (replicate 64 0),
                overwrite_outside v.blank (2 * v.pointer) (replicate 64 true),
                overwrite-IsBlank v.blank (2 * v.pointer) 64,
                refl,
              ),
            );
          });
    on_send = λ s v bytes len h.
        rw (h, with_args hashboard_idx 2 15 bytes v refl len) (record { ends = refl });
    on_burn = λ s v len words clear h.
        rw (h, without_args hashboard_idx 5 v refl)
          (record { ends = (execute 5 [] v, refl, burnt v len clear) });
    on_read = λ s v h. rw h (on_read v);
  }
