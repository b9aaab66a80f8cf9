-- ===== src/Io/Receiving.antt =====
-- Responses are read from the fifo two words at a time.
use kasop.Common.{
  ℕ, Bool, true, false, List, [], ◌∷◌, ◌++◌, Option, none, some, take, ok, if◌then◌else◌, ◌≡◌, ◌⊎◌,
  inl, inr, refl, sym, ap, ◌∙◌,
}
use mathlib.Core.List.{append_assoc}
use kasop.Common.Actions.{continue}
use kasop.Common.Done.{Done, Done-ok, Done-continue, Done-weaken}
use kasop.Io.Fifo.{
  CommandRegs, le_bytes, taken, read, timed_out, read_with_timeout, second_word, first_word,
  recv_response,
}

abbrev pub is_empty : List ℕ → Bool
is_empty [] = true
is_empty (w ∷ ws) = false

-- The first of some words, and the words behind it.
abbrev pub head? : List ℕ → Option ℕ
head? [] = none
head? (w ∷ ws) = some w

abbrev pub tail : {A : Type 0} → List A → List A
tail [] = []
tail (w ∷ ws) = ws

-- Responses as the two words of each.
abbrev pub words_of : List (ℕ × ℕ) → List ℕ
words_of [] = []
words_of ((w, v) ∷ frames) = w ∷ v ∷ words_of frames

abbrev pub first_frame : List (ℕ × ℕ) → Option (List ℕ)
first_frame [] = none
first_frame ((w, v) ∷ frames) = some (take 6 (le_bytes w ++ le_bytes v))

-- What the receive fifo does: `Holds s here coming` says that the words `here` wait in it, and that
-- the words `coming` are still on their way, each of which comes before a wait with `timeout` for it
-- ends. A timed wait ends with some word in the fifo, whether it says so or that the time is over, or
-- else the time is over and none comes.
pub record Queues {F : Type 0} (regs : CommandRegs F) (timeout : ℕ) (May : Type 0)
    (Holds : F → List ℕ → List ℕ → Type 0) : Type 0 where
  pub tells : (s : F) (here coming : List ℕ) → Holds s here coming → regs.rx_empty s ≡ is_empty here
  pub waits :
      (s : F) (w : ℕ) (ws coming : List ℕ)
      → Holds s (w ∷ ws) coming
      → Done May (regs.irq_wait s) (λ t _.
        (got : List ℕ) × (rest : List ℕ) × (coming ≡ got ++ rest) × Holds t (w ∷ ws ++ got) rest)
  pub timed :
      (s : F) (here coming : List ℕ)
      → Holds s here coming
      → Done May (regs.timed_irq_wait timeout s) (λ t on_time.
        (got : List ℕ) × (rest : List ℕ) × (coming ≡ got ++ rest)
        × Holds t (here ++ got) rest
        × ((is_empty (here ++ got) ≡ false) ⊎ ((on_time ≡ false) × (rest ≡ []))))
  pub pops :
      (s : F) (w : ℕ) (ws coming : List ℕ)
      → Holds s (w ∷ ws) coming
      → (t : F) × (regs.pop s ≡ (t, w)) × Holds t ws coming

-- The words that wait or are on their way.
abbrev pub Comes : {F : Type 0} → (F → List ℕ → List ℕ → Type 0) → F → List ℕ → Type 0
Comes Holds s ws = (here : List ℕ) × (coming : List ℕ) × (here ++ coming ≡ ws) × Holds s here coming

module _ {F : Type 0} (regs : CommandRegs F) (timeout : ℕ) (May : Type 0)
    (Holds : F → List ℕ → List ℕ → Type 0) (fifo : Queues regs timeout May Holds) where
  popped :
      (s : F) (w : ℕ) (ws coming : List ℕ)
      → Holds s (w ∷ ws) coming
      → Done May (taken (regs.pop s)) (λ t v. Comes Holds t (ws ++ coming) × (v ≡ w))
  popped s w ws coming h =
      let (t, e, held) = fifo.pops s w ws coming h in
      rw e (Done-ok ((ws, coming, refl, held), refl))

  read-Done :
      (s : F) (w : ℕ) (ws coming : List ℕ)
      → Holds s (w ∷ ws) coming
      → Done May (read regs s) (λ t v. Comes Holds t (ws ++ coming) × (v ≡ w))
  unfolding read
  read-Done s w ws coming h = Done-continue (fifo.waits s w ws coming h) (λ t _ p.
      Done-weaken (popped t w (ws ++ p.0) p.1 p.3) (λ u v q.
        ((q.0.0, q.0.1, q.0.2 ∙ append_assoc ws p.0 p.1 ∙ ap (◌++◌ ws) (sym p.2), q.0.3), q.1)))

  late :
      (s : F) (here coming : List ℕ)
      → Holds s here coming
      → ((is_empty here ≡ false) ⊎ (coming ≡ []))
      → Done May
          (timed_out regs s)
          (λ t o. Comes Holds t (tail (here ++ coming)) × (o ≡ head? (here ++ coming)))
  unfolding timed_out
  late s [] coming h (inl e) = absurd (cc)
  late s [] coming h (inr e) = rw (fifo.tells s [] coming h, e) (Done-ok (([], coming, e, h), refl))
  late s (w ∷ ws) coming h e =
      rw (fifo.tells s (w ∷ ws) coming h)
        (Done-continue (read-Done s w ws coming h) (λ t v p. Done-ok (p.0, ap some p.1)))

  in_time :
      (s : F) (here coming : List ℕ)
      → Holds s here coming
      → is_empty here ≡ false
      → Done May
          (continue (taken (regs.pop s)) (λ word t. (t, ok (some word))))
          (λ t o. Comes Holds t (tail (here ++ coming)) × (o ≡ head? (here ++ coming)))
  in_time s [] coming h e = absurd (cc)
  in_time s (w ∷ ws) coming h e =
      Done-continue (popped s w ws coming h) (λ t v p. Done-ok (p.0, ap some p.1))

  -- The next word is read, one that is there or one that comes, and nothing is said only if there is
  -- none.
  read_with_timeout-Done :
      (s : F) (ws : List ℕ)
      → Comes Holds s ws
      → Done May
          (read_with_timeout regs timeout s)
          (λ t o. Comes Holds t (tail ws) × (o ≡ head? ws))
  unfolding read_with_timeout
  read_with_timeout-Done s ws (here, coming, e, h) =
      Done-continue (fifo.timed s here coming h) (λ t b p.
        Done-weaken (branch t b (here ++ p.0) p.1 p.3 p.4) (λ u o q.
          let same : (here ++ p.0) ++ p.1 ≡ ws =
            append_assoc here p.0 p.1 ∙ ap (◌++◌ here) (sym p.2) ∙ e in
          ((q.0.0, q.0.1, q.0.2 ∙ ap tail same, q.0.3), q.1 ∙ ap head? same)))
    where
      branch :
          (t : F) (b : Bool) (here coming : List ℕ)
          → Holds t here coming
          → ((is_empty here ≡ false) ⊎ ((b ≡ false) × (coming ≡ [])))
          → Done May
              ((if b
                  then (λ u. continue (taken (regs.pop u)) (λ word v. (v, ok (some word))))
                  else timed_out regs)
                t)
              (λ t o. Comes Holds t (tail (here ++ coming)) × (o ≡ head? (here ++ coming)))
      branch t false here coming held (inl e) = late t here coming held (inl e)
      branch t false here coming held (inr (_, e)) = late t here coming held (inr e)
      branch t true here coming held (inl e) = in_time t here coming held e
      branch t true here coming held (inr (e, _)) = absurd (cc)

  -- A response is the six bytes of two words that are left without the checksum: the first response
  -- that waits or that comes before the timeout is given, in any state of its words, there or still on
  -- their way, or none if there is none, and the others stay.
  pub recv_response-Done :
      (s : F) (frames : List (ℕ × ℕ))
      → Comes Holds s (words_of frames)
      → Done May
          (recv_response regs timeout s)
          (λ t o. Comes Holds t (words_of (tail frames)) × (o ≡ first_frame frames))
  unfolding recv_response first_word second_word
  recv_response-Done s [] h =
      Done-continue (read_with_timeout-Done s [] h) (λ t o p. rw p.1 (Done-ok (p.0, refl)))
  recv_response-Done s ((w, v) ∷ frames) h =
      Done-continue (read_with_timeout-Done s (w ∷ v ∷ words_of frames) h) (λ t o p. rw p.1 (
        Done-continue (read_with_timeout-Done t (v ∷ words_of frames) p.0)
          (λ u o' q. rw q.1 (Done-ok (q.0, refl)))))
