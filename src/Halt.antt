-- ===== src/Halt.antt =====
-- src/halt.rs: the clients of a halt and the hooks behind it. What a client does with a notification
-- is a function, and the notifications and hooks are a list of what happened. The signals and the
-- tasks of clients are left out.
pub mod Order
mod Tests
use kasop.Common.{List, [], ◌∷◌, ◌++◌, ok, err, ErrorKind}
use kasop.Common.Actions.{Action, ◌>>=◌, ◌>>◌, return, lift}

-- What follows a notification: the client has dropped its receiver before, it confirms, it drops the
-- handle, or nothing comes in time.
pub data Reply : Type 0 where
  ended : Reply
  confirmed : Reply
  dropped_handle : Reply
  timeout : Reply

pub data Happened (C H : Type 0) : Type 0 where
  notified : C → Happened C H
  hook_ran : H → Happened C H

-- `halt::Sender`, and what happened.
pub record Sender (C H : Type 0) : Type 0 where
  pub clients : List C
  pub exit_hooks : List H
  pub happened : List (Happened C H)

module _ {C H : Type 0} where
  abbrev pub new_sender : Sender C H
  new_sender = record { clients = []; exit_hooks = []; happened = [] }

  unfoldable pub register_client : C → Action (Sender C H) (Unit {0})
  register_client client s = (record s { clients = s.clients ++ client ∷ [] }, ok tt)

  unfoldable pub add_exit_hook : H → Action (Sender C H) (Unit {0})
  add_exit_hook hook s = (record s { exit_hooks = s.exit_hooks ++ hook ∷ [] }, ok tt)

  abbrev pub note : Happened C H → Sender C H → Sender C H
  note event s = record s { happened = s.happened ++ event ∷ [] }

  abbrev pub take_clients : Sender C H → Sender C H
  take_clients s = record s { clients = [] }

  abbrev pub take_hooks : Sender C H → Sender C H
  take_hooks s = record s { exit_hooks = [] }

  unfoldable pub run_hooks : List H → Action (Sender C H) (Unit {0})
  run_hooks [] s = (s, ok tt)
  run_hooks (hook ∷ hooks) s = run_hooks hooks (note (hook_ran hook) s)

  module _ (reply : C → Reply) where
    -- The loop over the clients. The notification of a client that has ended is not sent.
    unfoldable pub halt_clients : List C → Action (Sender C H) (Unit {0})
    halt_clients [] s = (s, ok tt)
    halt_clients (client ∷ clients) s = elim (reply client) [
      | Reply.ended ↦ halt_clients clients s
      | Reply.confirmed ↦ halt_clients clients (note (notified client) s)
      | Reply.dropped_handle ↦ (note (notified client) s, err ErrorKind.halt)
      | Reply.timeout ↦ (note (notified client) s, err ErrorKind.halt)
    ]

    unfoldable pub send_halt_internal : Action (Sender C H) (Unit {0})
    send_halt_internal s =
        (halt_clients s.clients >> λ t. run_hooks t.exit_hooks (take_hooks t)) (take_clients s)
