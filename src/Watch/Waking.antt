-- ===== src/Watch/Waking.antt =====
-- src/watch.rs: no wake-up is lost, for all orders of the steps of the sender and the receivers.
use kasop.Common.{
  ℕ, zero, suc, Bool, true, false, ◌&&◌, ◌||◌, Option, none, some, ◌==◌, ◌≡◌, refl, sym, ap, subst,
  ◌∙◌, ◌⊎◌, inl, inr, ==_iff, List, [], ◌∷◌, Option-cases,
}
use kasop.Watch.{
  ChannelState, ChannelEvent, SenderPlace, Call, Place, Receiver, Reachable, start, next, take_step,
  receiver_moves, put_some, enter, wakes, cloned, with_count, channel, is_writing, moved_to,
  increment, decrement, initial_receivers, take_steps, and_run,
}
use kasop.Watch.Locking.{
  Every, Every-none, Every-some, holds, must_wake, seen, IsCareful, receiver_moves-Locks,
  receiver_moves-IsCareful, or_true,
}
use kasop.Watch.Guarded.{Guarded, put_receiver-Guarded, put_some-Guarded, with_count-Guarded}
use kasop.Watch.SenderSteps.{sender_moves-Guarded, begin-Guarded}

module _ {T : Type 0} where
  -- A receiver in no call that starts one, or goes.
  enter-Guarded :
      (later : Place T) (i : ℕ) (s : ChannelState T)
      → holds later ≡ false
      → seen s.shared.sender_alive s.shared.id (moved_to (s.receivers i) later) later ≡ true
      → Guarded s
      → Every Guarded (put_some i s (enter later s.lock (s.receivers i) ((s.receivers i).place)))
  enter-Guarded later i s h k g = go ((s.receivers i).place) refl
    where
      go :
          (place : Place T)
          → (s.receivers i).place ≡ place
          → Every Guarded (put_some i s (enter later s.lock (s.receivers i) place))
      go (Place.returned last) e = Every-some (
          put_receiver-Guarded i s (moved_to (s.receivers i) later, s.lock) g
            (inl (h ∙ sym (ap holds e), refl)) (rw k (or_true (must_wake s.sender))))
      go Place.absent e = Every-none
      go (Place.alive call) e = Every-none
      go (Place.compare call) e = Every-none
      go (Place.unchanged call) e = Every-none
      go (Place.fetch call) e = Every-none
      go Place.acquire e = Every-none
      go Place.waiting e = Every-none
      go Place.notified e = Every-none
      go Place.recheck e = Every-none
      go Place.observe e = Every-none
      go Place.copy e = Every-none

  wakes-Guarded :
      (i : ℕ) (s : ChannelState T)
      → Guarded s
      → Every Guarded (put_some i s (wakes s.lock (s.receivers i) ((s.receivers i).place)))
  wakes-Guarded i s g = go ((s.receivers i).place) refl
    where
      go :
          (place : Place T)
          → (s.receivers i).place ≡ place
          → Every Guarded (put_some i s (wakes s.lock (s.receivers i) place))
      go Place.waiting e = Every-some (
          put_receiver-Guarded i s (moved_to (s.receivers i) Place.notified, s.lock) g
            (inl (sym (ap holds e), refl)) (or_true (must_wake s.sender)))
      go (Place.returned last) e = Every-none
      go Place.absent e = Every-none
      go (Place.alive call) e = Every-none
      go (Place.compare call) e = Every-none
      go (Place.unchanged call) e = Every-none
      go (Place.fetch call) e = Every-none
      go Place.acquire e = Every-none
      go Place.notified e = Every-none
      go Place.recheck e = Every-none
      go Place.observe e = Every-none
      go Place.copy e = Every-none

  cloned-Guarded :
      (j : ℕ) (s : ChannelState T) (r : Receiver T) (place other : Place T)
      → (s.receivers j).place ≡ other
      → Guarded s
      → Every Guarded (cloned j s r place other)
  cloned-Guarded j s r (Place.returned last) Place.absent e g = Every-some (
      put_receiver-Guarded j (with_count (increment s.shared.receivers_count) s)
        (moved_to r (Place.returned none), s.lock)
        (with_count-Guarded (increment s.shared.receivers_count) s g) (inl (sym (ap holds e), refl))
        (or_true (must_wake s.sender)))
  cloned-Guarded j s r (Place.returned last) (Place.returned lasts) e g = Every-none
  cloned-Guarded j s r (Place.returned last) (Place.alive call) e g = Every-none
  cloned-Guarded j s r (Place.returned last) (Place.compare call) e g = Every-none
  cloned-Guarded j s r (Place.returned last) (Place.unchanged call) e g = Every-none
  cloned-Guarded j s r (Place.returned last) (Place.fetch call) e g = Every-none
  cloned-Guarded j s r (Place.returned last) Place.acquire e g = Every-none
  cloned-Guarded j s r (Place.returned last) Place.waiting e g = Every-none
  cloned-Guarded j s r (Place.returned last) Place.notified e g = Every-none
  cloned-Guarded j s r (Place.returned last) Place.recheck e g = Every-none
  cloned-Guarded j s r (Place.returned last) Place.observe e g = Every-none
  cloned-Guarded j s r (Place.returned last) Place.copy e g = Every-none
  cloned-Guarded j s r Place.absent other e g = Every-none
  cloned-Guarded j s r (Place.alive call) other e g = Every-none
  cloned-Guarded j s r (Place.compare call) other e g = Every-none
  cloned-Guarded j s r (Place.unchanged call) other e g = Every-none
  cloned-Guarded j s r (Place.fetch call) other e g = Every-none
  cloned-Guarded j s r Place.acquire other e g = Every-none
  cloned-Guarded j s r Place.waiting other e g = Every-none
  cloned-Guarded j s r Place.notified other e g = Every-none
  cloned-Guarded j s r Place.recheck other e g = Every-none
  cloned-Guarded j s r Place.observe other e g = Every-none
  cloned-Guarded j s r Place.copy other e g = Every-none

  take_step-Guarded :
      (e : ChannelEvent T) (s : ChannelState T) → Guarded s → Every Guarded (take_step e s)
  unfolding take_step
  take_step-Guarded (ChannelEvent.send v) s g =
      begin-Guarded (SenderPlace.counting v) s s.sender refl g
  take_step-Guarded ChannelEvent.drop_sender s g =
      begin-Guarded SenderPlace.dropping s s.sender refl g
  take_step-Guarded ChannelEvent.sender_step s g = sender_moves-Guarded s.sender s g
  take_step-Guarded (ChannelEvent.get_changed i) s g =
      enter-Guarded (Place.alive Call.plain) i s refl refl g
  take_step-Guarded (ChannelEvent.wait_for_change i) s g =
      enter-Guarded (Place.alive Call.first) i s refl refl g
  take_step-Guarded (ChannelEvent.receiver_step i) s g =
      put_some-Guarded i s
        (receiver_moves s.shared (is_writing s.sender) s.lock (s.receivers i)
          ((s.receivers i).place))
        g
        (receiver_moves-Locks s.shared (is_writing s.sender) s.lock (s.receivers i)
          ((s.receivers i).place))
        (receiver_moves-IsCareful s.shared s.sender (is_writing s.sender) s.lock (s.receivers i)
          ((s.receivers i).place) (g.careful i))
  take_step-Guarded (ChannelEvent.spurious i) s g = wakes-Guarded i s g
  take_step-Guarded (ChannelEvent.clone i j) s g =
      cloned-Guarded j s (s.receivers i) ((s.receivers i).place) ((s.receivers j).place) refl g
  take_step-Guarded (ChannelEvent.drop i) s g =
      enter-Guarded Place.absent i (with_count (decrement s.shared.receivers_count) s) refl refl
        (with_count-Guarded (decrement s.shared.receivers_count) s g)

  channel-Guarded : (init : T) → Guarded (channel init)
  unfolding channel
  channel-Guarded init = record { taken = taken; one = one; careful = careful }
    where
      taken : (i : ℕ) → holds ((initial_receivers {T = T} i).place) ≡ true → false ≡ true
      taken zero h = h
      taken (suc i) h = h

      one :
          (i j : ℕ)
          → holds ((initial_receivers {T = T} i).place) ≡ true
          → holds ((initial_receivers {T = T} j).place) ≡ true
          → i ≡ j
      one i j h k = let t : false ≡ true = taken i h in absurd (cc)

      careful :
          (i : ℕ)
          → IsCareful
              (record { value = init; id = 1; receivers_count = 1; sender_alive = true })
              (SenderPlace.ready none)
              (initial_receivers {T = T} i)
      careful zero = refl
      careful (suc i) = refl

  Reachable-Guarded : {init : T} (s : ChannelState T) → Reachable init s → Guarded s
  Reachable-Guarded s start = channel-Guarded _
  Reachable-Guarded t (next {s = s} e r h) =
      (take_step-Guarded e s (Reachable-Guarded s r)).every t h

  pub take_steps-Reachable :
      {init : T} (es : List (ChannelEvent T)) (s t : ChannelState T)
      → Reachable init s
      → take_steps es s ≡ some t
      → Reachable init t
  unfolding take_steps
  take_steps-Reachable {init = init} [] s t r e =
      let f : s ≡ t = cc in subst (λ x. Reachable init x) f r
  take_steps-Reachable {init = init} (event ∷ es) s t r e =
      elim (Option-cases (take_step event s)) [
        | inl f ↦
            let h : ◌≡◌ {A = Option (ChannelState T)} none (some t) =
              subst (λ o. and_run (take_steps es) o ≡ some t) f e in
            absurd (cc)
        | inr (u, f) ↦
            take_steps-Reachable es u t (next event r f)
              (subst (λ o. and_run (take_steps es) o ≡ some t) f e)
      ]

  -- No wake-up is lost: in every state that the steps of one sender and any number of receivers lead
  -- to, a receiver in the condition variable has observed the newest number on an open channel, or
  -- the sender is about to wake it.
  pub waiting-must_wake :
      {init : T} (s : ChannelState T) (i : ℕ)
      → Reachable init s
      → (s.receivers i).place ≡ Place.waiting
      → (must_wake s.sender ≡ true)
        ⊎ ((s.shared.sender_alive ≡ true) × ((s.receivers i).last_observed ≡ s.shared.id))
  waiting-must_wake s i r e = told (must_wake s.sender) (s.shared.sender_alive) (
      subst
        (λ x.
          (must_wake s.sender || seen s.shared.sender_alive s.shared.id (s.receivers i) x) ≡ true)
        e ((Reachable-Guarded s r).careful i))
    where
      told :
          (wake alive : Bool)
          → (wake || (alive && (s.receivers i).last_observed == s.shared.id)) ≡ true
          → (wake ≡ true) ⊎ ((alive ≡ true) × ((s.receivers i).last_observed ≡ s.shared.id))
      told true alive h = inl refl
      told false true h = inr (refl, (==_iff _ _).0 h)
      told false false h = absurd (cc)
