-- ===== src/Halt/Tests.antt =====
-- The theorems on a halt at concrete inputs.
use kasop.Common.{ℕ, zero, suc, [], ◌∷◌, ok, err, ErrorKind, ◌≡◌, refl}
use kasop.Halt.{Reply, Sender, notified, hook_ran, send_halt_internal}
use kasop.Halt.Order.{send_halt_internal-obeyed, send_halt_internal-failed}

-- Client 0 has ended, client 1 confirms, and the others do not answer.
abbrev reply_of : ℕ → Reply
reply_of zero = Reply.ended
reply_of (suc zero) = Reply.confirmed
reply_of (suc (suc n)) = Reply.timeout

abbrev two_clients : Sender ℕ ℕ
two_clients = record { clients = 0 ∷ 1 ∷ []; exit_hooks = 7 ∷ 8 ∷ []; happened = [] }

abbrev three_clients : Sender ℕ ℕ
three_clients = record { clients = 1 ∷ 2 ∷ 0 ∷ []; exit_hooks = 7 ∷ []; happened = [] }

send_halt_internal-obeyed_example : send_halt_internal reply_of two_clients ≡ (
  record { clients = []; exit_hooks = []; happened = notified 1 ∷ hook_ran 7 ∷ hook_ran 8 ∷ [] },
  ok tt,
)
send_halt_internal-obeyed_example = send_halt_internal-obeyed reply_of two_clients (tt, (tt, tt))

send_halt_internal-failed_example : send_halt_internal reply_of three_clients ≡ (
  record { clients = []; exit_hooks = 7 ∷ []; happened = notified 1 ∷ notified 2 ∷ [] },
  err ErrorKind.halt,
)
send_halt_internal-failed_example =
    send_halt_internal-failed reply_of (1 ∷ []) 2 (0 ∷ []) three_clients refl (tt, tt) tt
