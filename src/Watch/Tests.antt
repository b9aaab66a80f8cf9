-- ===== src/Watch/Tests.antt =====
-- Tests of the channel of src/watch.rs, and the theorems at concrete inputs.
use kasop.Common.{ℕ, true, List, [], ◌∷◌, ◌++◌, Option, none, some, ◌≡◌, refl, ◌⊎◌}
use kasop.Watch.{
  ChannelState, ChannelEvent, start, take_step, sender_moves, receiver_moves, take_steps, answered,
  increment, channel,
}
use kasop.Watch.Locking.{must_wake}
use kasop.Watch.Waking.{take_steps-Reachable, waiting-must_wake}
use kasop.Watch.Delivery.{send_steps, steps_of, get_changed_steps, receiver_of}

abbrev six : ℕ
six = 6

-- The call up to its wait, where nothing changed.
abbrev wait_steps : List (ChannelEvent ℕ)
wait_steps =
    ChannelEvent.wait_for_change 0 ∷ ChannelEvent.receiver_step 0 ∷ steps_of 0 ++ steps_of 0

-- The first value is taken, and the next is waited for.
abbrev up_to_wait : List (ChannelEvent ℕ)
up_to_wait = get_changed_steps 0 ++ wait_steps

abbrev state_or : ChannelState ℕ → Option (ChannelState ℕ) → ChannelState ℕ
state_or s none = s
state_or s (some t) = t

abbrev opened : ChannelState ℕ
unfolding channel
opened = channel 5

abbrev waits : ChannelState ℕ
unfolding channel take_steps take_step receiver_moves
waits = state_or (channel 5) (take_steps up_to_wait (channel 5))

waits_lem : take_steps up_to_wait (channel 5) ≡ some waits
unfolding channel take_steps take_step receiver_moves waits
waits_lem = refl

-- The number is loaded, then the value replaced, then cloned: the new value comes with the old
-- number, and once more with its own.
new_value_old_number :
    receiver_of {T = ℕ} 0 (
      take_steps
        ((ChannelEvent.get_changed 0
            ∷ ChannelEvent.receiver_step 0
            ∷ ChannelEvent.receiver_step 0
            ∷ [])
          ++ send_steps six
          ++ ChannelEvent.receiver_step 0 ∷ [])
        (channel 5))
    ≡ some (record { last_observed = 1; place = answered 6 })
unfolding channel take_steps take_step receiver_moves sender_moves increment
new_value_old_number = refl

-- The value is taken before the sender wakes the receivers; a wait that begins then ends with the
-- same value.
same_value_twice :
    receiver_of {T = ℕ} 0 (
      take_steps
        ((ChannelEvent.send six
            ∷ ChannelEvent.sender_step
            ∷ ChannelEvent.sender_step
            ∷ ChannelEvent.sender_step
            ∷ [])
          ++ up_to_wait
          ++ ChannelEvent.sender_step ∷ ChannelEvent.receiver_step 0 ∷ steps_of 0)
        (channel 5))
    ≡ some (record { last_observed = 2; place = answered 6 })
unfolding channel take_steps take_step receiver_moves sender_moves increment
same_value_twice = refl

waiting-must_wake_example :
    (must_wake (waits.sender) ≡ true)
    ⊎ ((waits.shared.sender_alive ≡ true) × ((waits.receivers 0).last_observed ≡ waits.shared.id))
unfolding channel waits take_steps take_step receiver_moves
waiting-must_wake_example =
    waiting-must_wake waits 0 (take_steps-Reachable up_to_wait (channel 5) waits start waits_lem)
      refl
