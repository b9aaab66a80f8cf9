-- ===== src/Io/FifoTests.antt =====
-- A pair of fifos, of which the one for commands has room for a single word, a solution, and a core.
use kasop.Common.{
  ℕ, Bool, not, if◌then◌else◌, true, false, List, [], ◌∷◌, ◌++◌, ok, ◌≡◌, ◌⊎◌, inl, Outcome, inr,
  refl, sym, arith, ap, ap₂, ◌∙◌,
}
use mathlib.Core.List.{append-nil}
use kasop.Common.Done.{Done, Done-ok}
use kasop.Bm1387.Midstate.{MidstateCount}
use kasop.Io.Fifo.{CommandRegs, send_command, recv_response}
use kasop.Io.Sending.{Drains, Added, send_command-Done}
use kasop.Io.Receiving.{Queues, Comes, words_of, tail, first_frame, is_empty, recv_response-Done}
use kasop.Io.Core.{Registers, expected_s9io_version}

pub record Fifos : Type 0 where
  pub tx : List ℕ
  pub busy : Bool
  pub rx : List ℕ
  -- The words that the chips still send, one whenever they are waited for.
  pub line : List ℕ

abbrev pop_from : List ℕ → Fifos → Fifos × ℕ
pop_from [] s = (s, 0)
pop_from (w ∷ ws) s = (record s { rx = ws }, w)

-- `tx` remembers the words that the fifo took, and `busy` says that the last of them is still in it:
-- the chips read it within a millisecond, and a word that is written before is lost.
abbrev push_into : ℕ → Fifos → Fifos
push_into w s = if s.busy then s else record s { tx = s.tx ++ w ∷ []; busy = true }

abbrev arrive : List ℕ → List ℕ → Fifos → Fifos × Outcome Bool
arrive [] [] s = (s, ok false)
arrive [] (w ∷ ws) s = (record s { rx = w ∷ []; line = ws }, ok true)
arrive (w ∷ ws) line s = (s, ok true)

abbrev regs : CommandRegs Fifos
regs = record {
  rx_empty = λ s. is_empty s.rx;
  tx_empty = λ s. not s.busy;
  tx_full = λ s. s.busy;
  irq_wait = λ s. (s, ok tt);
  timed_irq_wait = λ timeout s. arrive s.rx s.line s;
  pop = λ s. pop_from s.rx s;
  push = push_into;
  tick = λ s. record s { busy = false };
}

drains : Drains regs 2 (λ s. s.tx)
drains = record {
  on_push = λ w s room. rw room refl;
  on_tick = λ s. refl;
  has_room = λ s. (1, omega arith, refl);
  gets_empty = λ s. (1, omega arith, refl);
}

abbrev Holds : Fifos → List ℕ → List ℕ → Type 0
Holds s here coming = (s.rx ≡ here) × (s.line ≡ coming)

popped :
    (s : Fifos) (w : ℕ) (ws coming rx : List ℕ)
    → rx ≡ w ∷ ws
    → s.line ≡ coming
    → (t : Fifos) × (pop_from rx s ≡ (t, w)) × Holds t ws coming
popped s w ws coming rx h e = rw h (record s { rx = ws }, refl, (refl, e))

arrived :
    (s : Fifos) (here coming : List ℕ)
    → Holds s here coming
    → Done ⊥ (arrive here coming s) (λ t on_time.
      (got : List ℕ) × (rest : List ℕ) × (coming ≡ got ++ rest)
      × Holds t (here ++ got) rest
      × ((is_empty (here ++ got) ≡ false) ⊎ ((on_time ≡ false) × (rest ≡ []))))
arrived s [] [] h = Done-ok ([], [], refl, h, inr (refl, refl))
arrived s [] (w ∷ ws) h = Done-ok (w ∷ [], ws, refl, (refl, refl), inl refl)
arrived s (w ∷ ws) coming h =
    Done-ok ([], coming, refl, (h.0 ∙ sym (append-nil (w ∷ ws)), h.1), inl refl)

queues : (timeout : ℕ) → Queues regs timeout ⊥ Holds
queues timeout = record {
  tells = λ s here coming h. ap is_empty h.0;
  waits = λ s w ws coming h. Done-ok ([], coming, refl, (h.0 ∙ sym (append-nil (w ∷ ws)), h.1));
  timed =
      λ s here coming h. rw (ap₂ (λ rx line. arrive rx line s) h.0 h.1) (arrived s here coming h);
  pops = λ s w ws coming h. popped s w ws coming s.rx h.0 h.1;
}

abbrev quiet : Fifos
quiet = record { tx = []; busy = false; rx = []; line = [] }

abbrev two_words : List ℕ
two_words = 0x54 ∷ 5 ∷ 0 ∷ 8 ∷ 1 ∷ 2 ∷ 3 ∷ 4 ∷ []

send_command-Done_example : Done ⊥ (send_command regs 2 two_words true quiet) (λ t _.
    Added regs 2 (λ s. s.tx) drains two_words quiet t × ((true ≡ false) ⊎ (regs.tx_empty t ≡ true)))
send_command-Done_example =
    send_command-Done regs 2 (λ s. s.tx) drains 2 two_words true quiet refl (omega arith)

abbrev two_frames : List (ℕ × ℕ)
two_frames = (0x07000000, 8) ∷ (0x01000000, 9) ∷ []

-- The first word is there, the others are on their way.
abbrev answered : Fifos
answered = record { tx = []; busy = false; rx = 0x07000000 ∷ []; line = 8 ∷ 0x01000000 ∷ 9 ∷ [] }

recv_response-Done_example :
    Done ⊥
      (recv_response regs 100 answered)
      (λ t o. Comes Holds t (words_of (tail two_frames)) × (o ≡ first_frame two_frames))
recv_response-Done_example =
    recv_response-Done regs 100 ⊥ Holds (queues 100) answered two_frames
      (0x07000000 ∷ [], 8 ∷ 0x01000000 ∷ 9 ∷ [], refl, (refl, refl))

abbrev four : MidstateCount
four = record { log2 = 2 }

abbrev expected_core : Registers ℕ
expected_core = record {
  build_id = 0x5d8255f0;
  version = expected_s9io_version;
  enabled = false;
  midstate_cnt = 0;
  work_time = 0;
  baud_reg = 0;
  command_ctrl = record { was_reset = false; irq_en = false };
  work_rx_ctrl = record { was_reset = false; irq_en = false };
  work_tx_ctrl = record { was_reset = false; irq_en = false };
  work_tx_irq_thr = 0;
}
