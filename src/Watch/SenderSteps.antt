-- ===== src/Watch/SenderSteps.antt =====
-- src/watch.rs: the steps of the sender keep what holds of the lock and the receivers.
use kasop.Common.{ℕ, Bool, true, false, ◌==◌, ◌≡◌, refl, sym, ◌∙◌, inl, inr, Bool-cases}
use kasop.Watch.{
  ChannelState, SenderPlace, Call, Place, Receiver, sender_moves, wake, wake_up_threads, begin,
}
use kasop.Watch.Locking.{Every, Every-none, Every-some, Every-if, holds, must_wake, seen}
use kasop.Watch.Guarded.{Guarded}

module _ {T : Type 0} where
  wake-holds : (place : Place T) → holds (wake place) ≡ holds place
  wake-holds Place.absent = refl
  wake-holds (Place.returned last) = refl
  wake-holds (Place.alive call) = refl
  wake-holds (Place.compare call) = refl
  wake-holds (Place.unchanged call) = refl
  wake-holds (Place.fetch call) = refl
  wake-holds Place.acquire = refl
  wake-holds Place.waiting = refl
  wake-holds Place.notified = refl
  wake-holds Place.recheck = refl
  wake-holds Place.observe = refl
  wake-holds Place.copy = refl

  -- Nobody that does not hold the lock waits behind a call to wake.
  wake-seen :
      (alive : Bool) (id : ℕ) (r : Receiver T) (place : Place T)
      → holds place ≡ false
      → seen alive id r (wake place) ≡ true
  wake-seen alive id r Place.absent h = refl
  wake-seen alive id r (Place.returned last) h = refl
  wake-seen alive id r (Place.alive call) h = refl
  wake-seen alive id r (Place.compare Call.plain) h = refl
  wake-seen alive id r (Place.compare Call.first) h = refl
  wake-seen alive id r (Place.compare Call.locked) h = absurd (cc)
  wake-seen alive id r (Place.unchanged Call.plain) h = refl
  wake-seen alive id r (Place.unchanged Call.first) h = refl
  wake-seen alive id r (Place.unchanged Call.locked) h = absurd (cc)
  wake-seen alive id r (Place.fetch call) h = refl
  wake-seen alive id r Place.acquire h = refl
  wake-seen alive id r Place.waiting h = refl
  wake-seen alive id r Place.notified h = refl
  wake-seen alive id r Place.recheck h = refl
  wake-seen alive id r Place.observe h = refl
  wake-seen alive id r Place.copy h = refl

  wake_up_threads-Guarded :
      (now later : SenderPlace T) (s : ChannelState T)
      → Guarded (record s { sender = now })
      → must_wake later ≡ false
      → Every Guarded (wake_up_threads later s)
  wake_up_threads-Guarded now later s g m =
      Every-if s.lock (λ h. Every-none)
        (λ h. Every-some (record {
          taken = λ i p. g.taken i (sym (wake-holds ((s.receivers i).place)) ∙ p);
          one = λ i j p q.
              g.one i j (sym (wake-holds ((s.receivers i).place)) ∙ p)
                (sym (wake-holds ((s.receivers j).place)) ∙ q);
          careful = λ i. rw m (
              wake-seen s.shared.sender_alive s.shared.id (s.receivers i) ((s.receivers i).place)
                (free h i));
        }))
    where
      -- Nobody holds the lock when it is free.
      free : s.lock ≡ false → (i : ℕ) → holds ((s.receivers i).place) ≡ false
      free e i = elim (Bool-cases (holds ((s.receivers i).place))) [
        | inl h ↦ let t : s.lock ≡ true = g.taken i h in absurd (cc)
        | inr h ↦ h
      ]

  pub sender_moves-Guarded :
      (place : SenderPlace T) (s : ChannelState T)
      → Guarded (record s { sender = place })
      → Every Guarded (sender_moves place s)
  unfolding sender_moves
  sender_moves-Guarded (SenderPlace.ready last) s g = Every-none
  sender_moves-Guarded (SenderPlace.counting v) s g =
      Every-if (s.shared.receivers_count == 0)
        (λ h. Every-some (record { taken = g.taken; one = g.one; careful = g.careful }))
        (λ h. Every-some (record { taken = g.taken; one = g.one; careful = g.careful }))
  sender_moves-Guarded (SenderPlace.replacing v) s g =
      Every-some (record { taken = g.taken; one = g.one; careful = g.careful })
  sender_moves-Guarded SenderPlace.written s g =
      Every-some (record { taken = g.taken; one = g.one; careful = λ i. refl })
  sender_moves-Guarded SenderPlace.waking s g =
      wake_up_threads-Guarded SenderPlace.waking _ s g refl
  sender_moves-Guarded SenderPlace.dropping s g =
      Every-some (record { taken = g.taken; one = g.one; careful = λ i. refl })
  sender_moves-Guarded SenderPlace.waking_last s g =
      wake_up_threads-Guarded SenderPlace.waking_last _ s g refl
  sender_moves-Guarded SenderPlace.gone s g = Every-none

  pub begin-Guarded :
      (later : SenderPlace T) (s : ChannelState T) (place : SenderPlace T)
      → must_wake later ≡ false
      → Guarded (record s { sender = place })
      → Every Guarded (begin later s place)
  begin-Guarded later s (SenderPlace.ready last) m g =
      Every-some (record { taken = g.taken; one = g.one; careful = λ i. rw m (g.careful i) })
  begin-Guarded later s (SenderPlace.counting v) m g = Every-none
  begin-Guarded later s (SenderPlace.replacing v) m g = Every-none
  begin-Guarded later s SenderPlace.written m g = Every-none
  begin-Guarded later s SenderPlace.waking m g = Every-none
  begin-Guarded later s SenderPlace.dropping m g = Every-none
  begin-Guarded later s SenderPlace.waking_last m g = Every-none
  begin-Guarded later s SenderPlace.gone m g = Every-none
