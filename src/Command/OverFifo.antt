-- ===== src/Command/OverFifo.antt =====
-- The contexts of src/command.rs over the fifos of src/io.rs.
use kasop.Common.{ℕ, ◌%◌, ◌/◌, ◌^◌, List, [], ◌∷◌, map, ◌≡◌, refl, ap, ◌∙◌}
use kasop.Common.Done.{Done-weaken}
use kasop.Io.Fifo.{CommandRegs, send_command, recv_response}
use kasop.Io.Receiving.{Queues, Comes, words_of, first_frame, recv_response-Done}
use kasop.Io.Receiving
use kasop.Command.{CommandIo}
use kasop.Command.Reading.{Response, GivesResponses, head?}
use kasop.Command.Reading

-- `fuel` bounds the waits for the transmit fifo.
abbrev pub fifo_io : {F : Type 0} → CommandRegs F → ℕ → CommandIo F
fifo_io regs fuel = record {
  send_command = send_command regs fuel;
  recv_response = recv_response regs;
}

-- The response that two words hold.
abbrev pub response_of : ℕ × ℕ → Response
response_of (w, v) = record {
  b3 = w % 2 ^ 8;
  b2 = w / 2 ^ 8 % 2 ^ 8;
  b1 = w / 2 ^ 16 % 2 ^ 8;
  b0 = w / 2 ^ 24 % 2 ^ 8;
  chip_address = v % 2 ^ 8;
  register = v / 2 ^ 8 % 2 ^ 8;
}

abbrev pub WaitsIn : {F : Type 0} → (F → List ℕ → List ℕ → Type 0) → F → List Response → Type 0
WaitsIn Holds s rs =
    (frames : List (ℕ × ℕ)) × Comes Holds s (words_of frames) × (map response_of frames ≡ rs)

frame_head : (frames : List (ℕ × ℕ)) → first_frame frames ≡ head? (map response_of frames)
frame_head [] = refl
frame_head ((w, v) ∷ frames) = refl

frame_tail :
    (frames : List (ℕ × ℕ))
    → map response_of (Receiving.tail frames) ≡ Reading.tail (map response_of frames)
frame_tail [] = refl
frame_tail ((w, v) ∷ frames) = refl

-- Over a receive fifo that keeps its words in order, where those that are on their way come within
-- each of the times that are waited, an interface gives the responses that its pairs
-- of words stand for, in their order.
pub fifo_io-GivesResponses :
    {F : Type 0} (regs : CommandRegs F) (fuel : ℕ) (May : Type 0)
    (Holds : F → List ℕ → List ℕ → Type 0)
    → ((timeout : ℕ) → Queues regs timeout May Holds)
    → GivesResponses (fifo_io regs fuel) May (WaitsIn Holds)
fifo_io-GivesResponses regs fuel May Holds fifo = record {
  receives = λ s rs timeout (frames, held, e).
      Done-weaken (recv_response-Done regs timeout May Holds (fifo timeout) s frames held) (λ t o p.
        (
          (Receiving.tail frames, p.0, frame_tail frames ∙ ap Reading.tail e),
          p.1 ∙ frame_head frames ∙ ap head? e,
        ));
}
