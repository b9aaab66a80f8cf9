-- ===== src/Watch.antt =====
-- src/watch.rs: a channel that keeps the newest value, its sender and its receivers as threads.
-- A step is one access to what the threads share; a critical section of the sender under
-- `wait_for_change` is one step. One thread owns the sender. A number stands for each receiver.
mod Threads
pub mod Locking
mod Guarded
mod SenderSteps
pub mod Waking
mod Delivery
mod Tests
use kasop.Common.{
  ℕ, zero, suc, ◌+◌, ◌-◌, ◌%◌, ◌^◌, Bool, true, false, List, [], ◌∷◌, Option, none, some, ◌==◌, ◌≡◌,
  if◌then◌else◌,
}
unfoldable pub use Threads.*

-- The end of a call gives the lock back that it holds.
abbrev pub release : Call → Bool → Bool
release Call.locked lock = false
release call lock = lock

module _ {T : Type 0} where
  abbrev pub initial_receivers : ℕ → Receiver T
  initial_receivers zero = record { last_observed = 0; place = Place.returned none }
  initial_receivers (suc i) = record { last_observed = 0; place = Place.absent }

  pub channel : T → ChannelState T
  channel init = record {
    shared = record { value = init; id = 1; receivers_count = 1; sender_alive = true };
    sender = SenderPlace.ready none;
    lock = false;
    receivers = initial_receivers;
  }

  abbrev pub wake : Place T → Place T
  wake Place.waiting = Place.notified
  wake place = place

  -- `notify_all`.
  abbrev pub notify_all : (ℕ → Receiver T) → ℕ → Receiver T
  notify_all rs i = record (rs i) { place = wake ((rs i).place) }

  abbrev pub set_receiver : ℕ → Receiver T → (ℕ → Receiver T) → ℕ → Receiver T
  set_receiver i r rs j = if j == i then r else rs j

  -- `wake_up_threads`.
  abbrev pub wake_up_threads : SenderPlace T → ChannelState T → Option (ChannelState T)
  wake_up_threads next s =
      if s.lock then none else some (record s { sender = next; receivers = notify_all s.receivers })

  pub sender_moves : SenderPlace T → ChannelState T → Option (ChannelState T)
  sender_moves (SenderPlace.ready last) s = none
  sender_moves (SenderPlace.counting v) s =
      if s.shared.receivers_count == 0
      then some (record s { sender = SenderPlace.ready (some Result.closed) })
      else some (record s { sender = SenderPlace.replacing v })
  sender_moves (SenderPlace.replacing v) s =
      some (record s { shared = record (s.shared) { value = v }; sender = SenderPlace.written })
  sender_moves SenderPlace.written s = some (record s {
    shared = record (s.shared) { id = increment s.shared.id };
    sender = SenderPlace.waking;
  })
  sender_moves SenderPlace.waking s = wake_up_threads (SenderPlace.ready (some (Result.done tt))) s
  sender_moves SenderPlace.dropping s = some (record s {
    shared = record (s.shared) { sender_alive = false };
    sender = SenderPlace.waking_last;
  })
  sender_moves SenderPlace.waking_last s = wake_up_threads SenderPlace.gone s
  sender_moves SenderPlace.gone s = none

  -- Whether the lock of the value is held for writing.
  abbrev pub is_writing : SenderPlace T → Bool
  is_writing SenderPlace.written = true
  is_writing place = false

  abbrev pub after_unchanged : Call → Place T
  after_unchanged Call.plain = Place.returned (some (Result.done none))
  after_unchanged Call.first = Place.acquire
  after_unchanged Call.locked = Place.waiting

  abbrev pub answered : T → Place T
  answered v = Place.returned (some (Result.done (some v)))

  abbrev pub closed_place : Place T
  closed_place = Place.returned (some Result.closed)

  abbrev pub moved_to : Receiver T → Place T → Receiver T
  moved_to r place = record r { place = place }

  -- A step of a receiver: the receiver and the lock behind it.
  pub receiver_moves : Shared T → Bool → Bool → Receiver T → Place T → Option (Receiver T × Bool)
  receiver_moves shared writing lock r Place.absent = none
  receiver_moves shared writing lock r (Place.returned last) = none
  receiver_moves shared writing lock r (Place.alive call) =
      if shared.sender_alive
      then some (moved_to r (Place.compare call), lock)
      else some (moved_to r closed_place, release call lock)
  receiver_moves shared writing lock r (Place.compare call) =
      if r.last_observed == shared.id
      then some (moved_to r (Place.unchanged call), lock)
      else some (record { last_observed = shared.id; place = Place.fetch call }, lock)
  receiver_moves shared writing lock r (Place.unchanged call) =
      some (moved_to r (after_unchanged call), release call lock)
  receiver_moves shared writing lock r (Place.fetch call) =
      if writing then none else some (moved_to r (answered shared.value), release call lock)
  receiver_moves shared writing lock r Place.acquire =
      if lock then none else some (moved_to r (Place.alive Call.locked), true)
  receiver_moves shared writing lock r Place.waiting = none
  receiver_moves shared writing lock r Place.notified =
      if lock then none else some (moved_to r Place.recheck, true)
  receiver_moves shared writing lock r Place.recheck =
      if shared.sender_alive
      then some (moved_to r Place.observe, lock)
      else some (moved_to r closed_place, false)
  receiver_moves shared writing lock r Place.observe =
      some (record { last_observed = shared.id; place = Place.copy }, lock)
  receiver_moves shared writing lock r Place.copy =
      if writing then none else some (moved_to r (answered shared.value), false)

  abbrev pub put_receiver : ℕ → ChannelState T → Receiver T × Bool → ChannelState T
  put_receiver i s (r, lock) = record s { lock = lock; receivers = set_receiver i r s.receivers }

  abbrev pub put_some : ℕ → ChannelState T → Option (Receiver T × Bool) → Option (ChannelState T)
  put_some i s none = none
  put_some i s (some moved) = some (put_receiver i s moved)

  -- A receiver that is in no call moves to another place.
  abbrev pub enter : Place T → Bool → Receiver T → Place T → Option (Receiver T × Bool)
  enter next lock r (Place.returned last) = some (moved_to r next, lock)
  enter next lock r place = none

  abbrev pub wakes : Bool → Receiver T → Place T → Option (Receiver T × Bool)
  wakes lock r Place.waiting = some (moved_to r Place.notified, lock)
  wakes lock r place = none

  -- The sender in no call moves to another place.
  abbrev pub begin : SenderPlace T → ChannelState T → SenderPlace T → Option (ChannelState T)
  begin next s (SenderPlace.ready last) = some (record s { sender = next })
  begin next s place = none

  abbrev pub with_count : ℕ → ChannelState T → ChannelState T
  with_count n s = record s { shared = record (s.shared) { receivers_count = n } }

  -- The clone takes a number that no receiver has.
  abbrev pub cloned : ℕ → ChannelState T → Receiver T → Place T → Place T → Option (ChannelState T)
  cloned j s r (Place.returned last) Place.absent = some (
      put_receiver j (with_count (increment s.shared.receivers_count) s)
        (moved_to r (Place.returned none), s.lock))
  cloned j s r place other = none

  pub take_step : ChannelEvent T → ChannelState T → Option (ChannelState T)
  take_step (ChannelEvent.send v) s = begin (SenderPlace.counting v) s s.sender
  take_step ChannelEvent.drop_sender s = begin SenderPlace.dropping s s.sender
  take_step ChannelEvent.sender_step s = sender_moves s.sender s
  take_step (ChannelEvent.get_changed i) s =
      let r = s.receivers i in put_some i s (enter (Place.alive Call.plain) s.lock r r.place)
  take_step (ChannelEvent.wait_for_change i) s =
      let r = s.receivers i in put_some i s (enter (Place.alive Call.first) s.lock r r.place)
  take_step (ChannelEvent.receiver_step i) s =
      let r = s.receivers i in
      put_some i s (receiver_moves s.shared (is_writing s.sender) s.lock r r.place)
  take_step (ChannelEvent.spurious i) s =
      let r = s.receivers i in put_some i s (wakes s.lock r r.place)
  take_step (ChannelEvent.clone i j) s =
      let r = s.receivers i in cloned j s r r.place ((s.receivers j).place)
  take_step (ChannelEvent.drop i) s =
      let r = s.receivers i in
      put_some i (with_count (decrement s.shared.receivers_count) s)
        (enter Place.absent s.lock r r.place)

-- The steps of a list; none where one of them cannot be taken.
abbrev pub and_run :
    {T : Type 0}
    → (ChannelState T → Option (ChannelState T))
    → Option (ChannelState T)
    → Option (ChannelState T)
and_run rest none = none
and_run rest (some s) = rest s

pub take_steps : {T : Type 0} → List (ChannelEvent T) → ChannelState T → Option (ChannelState T)
take_steps [] s = some s
take_steps (e ∷ es) s = and_run (take_steps es) (take_step e s)

pub data Reachable {T : Type 0} (init : T) : ChannelState T → Type 0 where
  start : Reachable init (channel init)
  next :
      {s t : ChannelState T} (e : ChannelEvent T)
      → Reachable init s
      → take_step e s ≡ some t
      → Reachable init t
