-- ===== src/Io/Sending.antt =====
-- Commands reach the fifo whole and in order, and a wait for it to be empty ends when it is.
use kasop.Common.{
  ℕ, zero, suc, ◌+◌, ◌*◌, ◌/◌, ◌%◌, ◌^◌, ◌<◌, bit_and, Bool, true, false, not, List, [], ◌∷◌, ◌++◌,
  length, All, ◌==◌, ◌≡◌, ◌⊎◌, refl, sym, ap, ap₂, ◌∙◌, arith, Bool-cases, inl, inr,
}
use mathlib.Core.List.{append_assoc, append-nil}
use kasop.Common.Bits.Fields.{mask_as_mod}
use kasop.Common.Done.{Done, Done-ok, Done-continue, Done-weaken}
use kasop.Io.Fifo.{
  CommandRegs, le_bytes, poll, wait_tx_empty, write, send_words, wait_if, send_command,
}

module _ {F : Type 0} (regs : CommandRegs F) where
  abbrev pub ticks : ℕ → F → F
  ticks zero s = s
  ticks (suc k) s = ticks k (regs.tick s)

  -- A wait ends, at a time at which its test fails, if there is such a time within the fuel.
  poll-Done :
      (fuel k : ℕ) (test : F → Bool) (s : F)
      → k < fuel
      → test (ticks k s) ≡ false
      → Done ⊥ (poll regs fuel test s) (λ t _. (j : ℕ) × (t ≡ ticks j s) × (test t ≡ false))
  unfolding poll
  poll-Done zero k test s lt h = absurd (omega arith)
  poll-Done (suc fuel) zero test s lt h = rw h (Done-ok (0, refl, h))
  poll-Done (suc fuel) (suc k) test s lt h = elim (Bool-cases (test s)) [
    | inr over ↦ rw over (Done-ok (0, refl, over))
    | inl busy ↦ rw busy (
        Done-weaken (poll-Done fuel k test (regs.tick s) (omega arith) h)
          (λ t _ p. (suc p.0, p.1, p.2)))
  ]

-- What the transmit fifo does: it takes a word that is written while it has room behind those before,
-- forgets none while time passes, and within the fuel has room, and is empty. Of a word that is
-- written while it is full nothing is said.
pub record Drains {F : Type 0} (regs : CommandRegs F) (fuel : ℕ) (sent : F → List ℕ) : Type 0 where
  pub on_push : (w : ℕ) (s : F) → regs.tx_full s ≡ false → sent (regs.push w s) ≡ sent s ++ w ∷ []
  pub on_tick : (s : F) → sent (regs.tick s) ≡ sent s
  pub has_room : (s : F) → (k : ℕ) × (k < fuel) × (regs.tx_full (ticks regs k s) ≡ false)
  pub gets_empty : (s : F) → (k : ℕ) × (k < fuel) × (regs.tx_empty (ticks regs k s) ≡ true)

-- The bytes of words, the lowest first.
abbrev pub bytes_of : List ℕ → List ℕ
bytes_of [] = []
bytes_of (w ∷ ws) = le_bytes w ++ bytes_of ws

abbrev pub Byte : ℕ → Type 0
Byte b = b < 2 ^ 8

bytes_of_word :
    (a b c d : ℕ)
    → Byte a
    → Byte b
    → Byte c
    → Byte d
    → le_bytes (a + b * 2 ^ 8 + c * 2 ^ 16 + d * 2 ^ 24) ≡ a ∷ b ∷ c ∷ d ∷ []
bytes_of_word a b c d ha hb hc hd =
    let w : ℕ = a + b * 2 ^ 8 + c * 2 ^ 16 + d * 2 ^ 24 in
    let e0 : w % 2 ^ 8 ≡ a = omega arith in
    let e1 : w / 2 ^ 8 % 2 ^ 8 ≡ b = omega arith in
    let e2 : w / 2 ^ 16 % 2 ^ 8 ≡ c = omega arith in
    let e3 : w / 2 ^ 24 % 2 ^ 8 ≡ d = omega arith in λ i. e0 i ∷ e1 i ∷ e2 i ∷ e3 i ∷ []

module _ {F : Type 0} (regs : CommandRegs F) (fuel : ℕ) (sent : F → List ℕ)
    (fifo : Drains regs fuel sent) where
  sent-ticks : (k : ℕ) (s : F) → sent (ticks regs k s) ≡ sent s
  sent-ticks zero s = refl
  sent-ticks (suc k) s = sent-ticks k (regs.tick s) ∙ fifo.on_tick s

  write-Done : (w : ℕ) (s : F) → Done ⊥ (write regs fuel w s) (λ t _. sent t ≡ sent s ++ w ∷ [])
  unfolding write
  write-Done w s =
      let (k, lt, room) = fifo.has_room s in
      Done-continue (poll-Done regs fuel k regs.tx_full s lt room) (λ t _ p.
        Done-ok (fifo.on_push w t p.2 ∙ ap (λ xs. xs ++ w ∷ []) (ap sent p.1 ∙ sent-ticks p.0 s)))

  -- What a command of whole words leaves in the fifo.
  abbrev pub Added : List ℕ → F → F → Type 0
  Added cmd s t = (ws : List ℕ) × (sent t ≡ sent s ++ ws) × (bytes_of ws ≡ cmd)

  send_words-Done :
      (n : ℕ) (cmd : List ℕ) (s : F)
      → length cmd ≡ 4 * n
      → All Byte cmd
      → Done ⊥ (send_words regs fuel cmd s) (λ t _. Added cmd s t)
  unfolding send_words
  send_words-Done n [] s len small = Done-ok ([], sym (append-nil (sent s)), refl)
  send_words-Done n (a ∷ []) s len small = absurd (omega arith)
  send_words-Done n (a ∷ b ∷ []) s len small = absurd (omega arith)
  send_words-Done n (a ∷ b ∷ c ∷ []) s len small = absurd (omega arith)
  send_words-Done zero (a ∷ b ∷ c ∷ d ∷ rest) s len small = absurd (omega arith)
  send_words-Done (suc n) (a ∷ b ∷ c ∷ d ∷ rest) s len (ha, (hb, (hc, (hd, small)))) =
      let w : ℕ = a + b * 2 ^ 8 + c * 2 ^ 16 + d * 2 ^ 24 in
      Done-continue (write-Done w s) (λ t _ p.
        Done-weaken (send_words-Done n rest t (omega arith) small) (λ u _ q. (
          w ∷ q.0,
          q.1 ∙ ap (λ xs. xs ++ q.0) p ∙ append_assoc (sent s) (w ∷ []) q.0,
          ap₂ ◌++◌ (bytes_of_word a b c d ha hb hc hd) q.2,
        )))

  waited :
      (wait : Bool) (s : F)
      → Done ⊥
          (wait_if regs fuel wait s)
          (λ t _. (sent t ≡ sent s) × ((wait ≡ false) ⊎ (regs.tx_empty t ≡ true)))
  unfolding wait_if wait_tx_empty
  waited false s = Done-ok (refl, inl refl)
  waited true s =
      let (k, lt, empty) = fifo.gets_empty s in
      Done-weaken (poll-Done regs fuel k (λ u. not (regs.tx_empty u)) s lt (rw empty refl))
        (λ t _ p. (ap sent p.1 ∙ sent-ticks p.0 s, inr (ground arith)))

  -- A command of whole words is sent without an error: its bytes, cut into words, stand in the fifo
  -- behind what was there, and if the caller waits then the fifo has run empty.
  pub send_command-Done :
      (n : ℕ) (cmd : List ℕ) (wait : Bool) (s : F)
      → length cmd ≡ 4 * n
      → All Byte cmd
      → Done ⊥
          (send_command regs fuel cmd wait s)
          (λ t _. Added cmd s t × ((wait ≡ false) ⊎ (regs.tx_empty t ≡ true)))
  unfolding send_command
  send_command-Done n cmd wait s len small = rw (aligned n cmd len) (
      Done-continue (send_words-Done n cmd s len small)
        (λ t _ p. Done-weaken (waited wait t) (λ u _ q. ((p.0, q.0 ∙ p.1, p.2), q.1))))
    where
      aligned : (n : ℕ) (cmd : List ℕ) → length cmd ≡ 4 * n → (bit_and (length cmd) 0x3 == 0) ≡ true
      aligned n cmd len =
          let e : bit_and (length cmd) 0x3 ≡ length cmd % 4 = mask_as_mod 2 (length cmd) in
          let z : length cmd % 4 ≡ 0 = omega arith in rw (e, z) refl
