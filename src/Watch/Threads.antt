-- ===== src/Watch/Threads.antt =====
-- src/watch.rs: what the threads of a channel share, where each of them is, and the events.
use kasop.Common.{ℕ, ◌+◌, ◌-◌, ◌%◌, ◌^◌, Bool, Option}

-- `Result<_, ChannelClosed>`.
pub data Result (A : Type 0) : Type 0 where
  closed : Result A
  done : A → Result A

pub record Shared (T : Type 0) : Type 0 where
  pub value : T
  pub id : ℕ
  pub receivers_count : ℕ
  pub sender_alive : Bool

-- Where the sender is. `ready` has the result of the last call.
pub data SenderPlace (T : Type 0) : Type 0 where
  ready : Option (Result (Unit {0})) → SenderPlace T
  counting : T → SenderPlace T
  replacing : T → SenderPlace T
  -- The value is replaced, its number is not; the lock of the value is held.
  written : SenderPlace T
  waking : SenderPlace T
  dropping : SenderPlace T
  waking_last : SenderPlace T
  gone : SenderPlace T

-- Which call of `get_changed_internal` runs: that of `get_changed`, or those of `wait_for_change`
-- before and under its lock.
pub data Call : Type 0 where
  plain : Call
  first : Call
  locked : Call

-- Where a receiver is.
pub data Place (T : Type 0) : Type 0 where
  absent : Place T
  returned : Option (Result (Option T)) → Place T
  alive : Call → Place T
  compare : Call → Place T
  unchanged : Call → Place T
  fetch : Call → Place T
  acquire : Place T
  -- In the condition variable.
  waiting : Place T
  notified : Place T
  recheck : Place T
  observe : Place T
  copy : Place T

pub record Receiver (T : Type 0) : Type 0 where
  pub last_observed : ℕ
  pub place : Place T

pub record ChannelState (T : Type 0) : Type 0 where
  pub shared : Shared T
  pub sender : SenderPlace T
  -- Whether the lock `wait_for_change` is held by a receiver.
  pub lock : Bool
  pub receivers : ℕ → Receiver T

pub data ChannelEvent (T : Type 0) : Type 0 where
  send : T → ChannelEvent T
  drop_sender : ChannelEvent T
  sender_step : ChannelEvent T
  get_changed : ℕ → ChannelEvent T
  wait_for_change : ℕ → ChannelEvent T
  receiver_step : ℕ → ChannelEvent T
  -- A condition variable may end a wait without a notification.
  spurious : ℕ → ChannelEvent T
  -- The receiver, and the number of its clone.
  clone : ℕ → ℕ → ChannelEvent T
  drop : ℕ → ChannelEvent T

abbrev pub usize_bits : ℕ
usize_bits = 32

-- `fetch_add(1)` and `fetch_sub(1)`.
unfoldable pub increment : ℕ → ℕ
increment n = (n + 1) % 2 ^ usize_bits

unfoldable pub decrement : ℕ → ℕ
decrement n = (n + (2 ^ usize_bits - 1)) % 2 ^ usize_bits
