-- ===== src/Watch/Delivery.antt =====
-- Calls of src/watch.rs that run to their end, for the tests of the channel.
use kasop.Common.{ℕ, List, [], ◌∷◌, Option, none, some}
use kasop.Watch.{ChannelState, ChannelEvent, Receiver}

-- `send`, where there is a receiver.
abbrev pub send_steps : {T : Type 0} → T → List (ChannelEvent T)
send_steps v =
    ChannelEvent.send v
    ∷ ChannelEvent.sender_step
    ∷ ChannelEvent.sender_step
    ∷ ChannelEvent.sender_step
    ∷ ChannelEvent.sender_step
    ∷ []

-- The steps of one receiver.
abbrev pub steps_of : {T : Type 0} → ℕ → List (ChannelEvent T)
steps_of i =
    ChannelEvent.receiver_step i ∷ ChannelEvent.receiver_step i ∷ ChannelEvent.receiver_step i ∷ []

abbrev pub get_changed_steps : {T : Type 0} → ℕ → List (ChannelEvent T)
get_changed_steps i = ChannelEvent.get_changed i ∷ steps_of i

abbrev pub receiver_of : {T : Type 0} → ℕ → Option (ChannelState T) → Option (Receiver T)
receiver_of i none = none
receiver_of i (some s) = some (s.receivers i)
