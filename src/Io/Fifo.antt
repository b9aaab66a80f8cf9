-- ===== src/Io/Fifo.antt =====
-- `CommandRxTxFifos` and `CommandRxTx` of src/io.rs: commands to the chips and their responses. The
-- registers of the FPGA and the waiting for its interrupt are a parameter.
use kasop.Common.{
  ℕ, zero, suc, ◌+◌, ◌*◌, ◌/◌, ◌%◌, ◌^◌, bit_and, Bool, not, List, [], ◌∷◌, ◌++◌, Option, none,
  some, length, take, Outcome, ok, err, panic, ErrorKind, assert, ◌==◌, if◌then◌else◌,
}
use kasop.Common.Actions.{Action, ◌>>=◌, ◌>>◌, return, lift}

pub record CommandRegs (F : Type 0) : Type 0 where
  pub rx_empty : F → Bool
  pub tx_empty : F → Bool
  pub tx_full : F → Bool
  -- `async_irq_wait_cond` for a word in the receive fifo.
  pub irq_wait : Action F (Unit {0})
  -- The same within a time, and whether the time was enough.
  pub timed_irq_wait : ℕ → Action F Bool
  -- A read of `cmd_rx_fifo`, and a write of `cmd_tx_fifo`.
  pub pop : F → F × ℕ
  pub push : ℕ → F → F
  -- What passes in a millisecond.
  pub tick : F → F

-- `to_le_bytes` of a word.
abbrev pub le_bytes : ℕ → List ℕ
le_bytes w = w % 2 ^ 8 ∷ w / 2 ^ 8 % 2 ^ 8 ∷ w / 2 ^ 16 % 2 ^ 8 ∷ w / 2 ^ 24 % 2 ^ 8 ∷ []

module _ {F : Type 0} where
  abbrev pub taken : F × ℕ → F × Outcome ℕ
  taken (s, word) = (s, ok word)

  abbrev pub some_word : ℕ → Action F (Option ℕ)
  some_word word = return (some word)

module _ {F : Type 0} (regs : CommandRegs F) where
  -- `while test { delay }`. The fuel bounds the number of tests; a wait that is longer is not
  -- followed to its end.
  unfoldable pub poll : ℕ → (F → Bool) → Action F (Unit {0})
  poll zero test s = (s, panic)
  poll (suc fuel) test s =
      let later = poll fuel test (regs.tick s) in if test s then later else (s, ok tt)

  unfoldable pub wait_tx_empty : ℕ → Action F (Unit {0})
  wait_tx_empty fuel = poll fuel (λ s. not (regs.tx_empty s))

  abbrev pub put : ℕ → Action F (Unit {0})
  put item s = (regs.push item s, ok tt)

  -- `CommandRxTxFifos::write`.
  unfoldable pub write : ℕ → ℕ → Action F (Unit {0})
  write fuel item = do poll fuel regs.tx_full; put item

  -- `CommandRxTxFifos::read`.
  unfoldable pub read : Action F ℕ
  read = regs.irq_wait >> λ s. taken (regs.pop s)

  -- Behind the timeout: a word that is there all the same is read.
  unfoldable pub timed_out : Action F (Option ℕ)
  timed_out s = if not (regs.rx_empty s) then (read >>= some_word) s else (s, ok none)

  unfoldable pub read_with_timeout : ℕ → Action F (Option ℕ)
  read_with_timeout timeout = do
    on_time ← regs.timed_irq_wait timeout
    if on_time then ((λ s. taken (regs.pop s)) >>= some_word) else timed_out

  -- The loop over the chunks of four bytes.
  unfoldable pub send_words : ℕ → List ℕ → Action F (Unit {0})
  send_words fuel (a ∷ b ∷ c ∷ d ∷ rest) = do
    write fuel (a + b * 2 ^ 8 + c * 2 ^ 16 + d * 2 ^ 24)
    send_words fuel rest
  send_words fuel [] = return tt
  send_words fuel odd = lift panic

  unfoldable pub wait_if : ℕ → Bool → Action F (Unit {0})
  wait_if fuel wait = if wait then wait_tx_empty fuel else return tt

  -- `CommandRxTx::send_command`.
  unfoldable pub send_command : ℕ → List ℕ → Bool → Action F (Unit {0})
  send_command fuel cmd wait = do
    lift (assert (bit_and (length cmd) 0x3 == 0))
    send_words fuel cmd
    wait_if fuel wait

  -- The second word of a response: not to get it is an error.
  unfoldable pub second_word : ℕ → Option ℕ → Action F (Option (List ℕ))
  second_word word1 none = lift (err ErrorKind.fifo)
  second_word word1 (some word2) = return (some (take 6 (le_bytes word1 ++ le_bytes word2)))

  unfoldable pub first_word : ℕ → Option ℕ → Action F (Option (List ℕ))
  first_word timeout none = return none
  first_word timeout (some word1) = read_with_timeout timeout >>= second_word word1

  -- `CommandRxTx::recv_response`.
  unfoldable pub recv_response : ℕ → Action F (Option (List ℕ))
  recv_response timeout = read_with_timeout timeout >>= first_word timeout
