-- ===== src/Watch/Locking.antt =====
-- The lock `wait_for_change` of src/watch.rs: which receivers hold it, and what a receiver that is
-- about to wait has seen.
use kasop.Common.{
  ℕ, Bool, true, false, ◌&&◌, ◌||◌, Option, none, some, ◌==◌, if◌then◌else◌, ◌≡◌, refl, sym, subst,
  ◌∙◌, ◌⊎◌, inl, inr,
}
use kasop.Watch.{
  Shared, SenderPlace, Call, Place, Receiver, moved_to, receiver_moves, release, after_unchanged,
  answered, closed_place,
}

-- What a result has, where there is one.
pub record Every {A : Type 0} (P : A → Type 0) (o : Option A) : Type 0 where
  pub every : (a : A) → o ≡ some a → P a

module _ {A : Type 0} {P : A → Type 0} where
  pub Every-none : Every P none
  Every-none = record { every = λ a e. absurd (cc) }

  pub Every-some : {a : A} → P a → Every P (some a)
  Every-some {a = a} h = record { every = λ b e. let f : a ≡ b = cc in subst P f h }

  pub Every-if :
      {x y : Option A} (b : Bool)
      → (b ≡ true → Every P x)
      → (b ≡ false → Every P y)
      → Every P (if b then x else y)
  Every-if true h k = h refl
  Every-if false h k = k refl

abbrev pub is_locked : Call → Bool
is_locked Call.locked = true
is_locked call = false

pub or_true : (b : Bool) → (b || true) ≡ true
or_true true = refl
or_true false = refl

-- Of a test that one of two facts passes, where the second can be made better.
or_better : (b c d : Bool) → (b || c) ≡ true → (c ≡ true → d ≡ true) → (b || d) ≡ true
or_better true c d h k = refl
or_better false c d h k = k h

module _ {T : Type 0} where
  abbrev pub holds : Place T → Bool
  holds (Place.alive call) = is_locked call
  holds (Place.compare call) = is_locked call
  holds (Place.unchanged call) = is_locked call
  holds (Place.fetch call) = is_locked call
  holds Place.recheck = true
  holds Place.observe = true
  holds Place.copy = true
  holds place = false

after_unchanged-holds : (T : Type 0) (call : Call) → holds (after_unchanged {T = T} call) ≡ false
after_unchanged-holds T Call.plain = refl
after_unchanged-holds T Call.first = refl
after_unchanged-holds T Call.locked = refl

module _ {T : Type 0} where
  -- The sender is about to wake the receivers.
  abbrev pub must_wake : SenderPlace T → Bool
  must_wake SenderPlace.waking = true
  must_wake SenderPlace.waking_last = true
  must_wake place = false

  -- The receiver has seen the newest value, and the channel is open.
  abbrev pub up_to_date : Bool → ℕ → Receiver T → Bool
  up_to_date alive id r = alive && r.last_observed == id

  -- What is known at a place on the way into the condition variable, if no call to wake is on its
  -- way.
  abbrev pub seen : Bool → ℕ → Receiver T → Place T → Bool
  seen alive id r (Place.compare Call.locked) = alive
  seen alive id r (Place.unchanged Call.locked) = up_to_date alive id r
  seen alive id r Place.waiting = up_to_date alive id r
  seen alive id r place = true

  abbrev pub IsCareful : Shared T → SenderPlace T → Receiver T → Type 0
  IsCareful shared sender r =
      (must_wake sender || seen shared.sender_alive shared.id r (r.place)) ≡ true

  -- What a step does with the lock: nothing, or it takes it, or it gives it back.
  abbrev pub Locks : Bool → Place T → Receiver T × Bool → Type 0
  Locks lock place moved =
      ((holds (moved.0.place) ≡ holds place) × (moved.1 ≡ lock))
      ⊎ (((lock ≡ false) × (moved.1 ≡ true))
          ⊎ ((holds place ≡ true) × (holds (moved.0.place) ≡ false) × (moved.1 ≡ false)))

  -- The end of a call.
  release-Locks :
      (call : Call) (lock : Bool) (place : Place T) (r : Receiver T)
      → holds place ≡ is_locked call
      → holds (r.place) ≡ false
      → Locks lock place (r, release call lock)
  release-Locks Call.plain lock place r h k = inl (k ∙ sym h, refl)
  release-Locks Call.first lock place r h k = inl (k ∙ sym h, refl)
  release-Locks Call.locked lock place r h k = inr (inr (h, k, refl))

  pub receiver_moves-Locks :
      (shared : Shared T) (writing lock : Bool) (r : Receiver T) (place : Place T)
      → Every (Locks lock place) (receiver_moves shared writing lock r place)
  unfolding receiver_moves
  receiver_moves-Locks shared writing lock r Place.absent = Every-none
  receiver_moves-Locks shared writing lock r (Place.returned last) = Every-none
  receiver_moves-Locks shared writing lock r (Place.alive call) =
      Every-if (shared.sender_alive) (λ h. Every-some (inl (refl, refl)))
        (λ h.
          Every-some
            (release-Locks call lock (Place.alive call) (moved_to r closed_place) refl refl))
  receiver_moves-Locks shared writing lock r (Place.compare call) =
      Every-if (r.last_observed == shared.id) (λ h. Every-some (inl (refl, refl)))
        (λ h. Every-some (inl (refl, refl)))
  receiver_moves-Locks shared writing lock r (Place.unchanged call) = Every-some (
      release-Locks call lock (Place.unchanged call) (moved_to r (after_unchanged call)) refl
        (after_unchanged-holds T call))
  receiver_moves-Locks shared writing lock r (Place.fetch call) =
      Every-if writing (λ h. Every-none)
        (λ h. Every-some (
          release-Locks call lock (Place.fetch call) (moved_to r (answered (shared.value))) refl
            refl))
  receiver_moves-Locks shared writing lock r Place.acquire =
      Every-if lock (λ h. Every-none) (λ h. Every-some (inr (inl (h, refl))))
  receiver_moves-Locks shared writing lock r Place.waiting = Every-none
  receiver_moves-Locks shared writing lock r Place.notified =
      Every-if lock (λ h. Every-none) (λ h. Every-some (inr (inl (h, refl))))
  receiver_moves-Locks shared writing lock r Place.recheck =
      Every-if (shared.sender_alive) (λ h. Every-some (inl (refl, refl)))
        (λ h. Every-some (inr (inr (refl, refl, refl))))
  receiver_moves-Locks shared writing lock r Place.observe = Every-some (inl (refl, refl))
  receiver_moves-Locks shared writing lock r Place.copy =
      Every-if writing (λ h. Every-none) (λ h. Every-some (inr (inr (refl, refl, refl))))

  pub receiver_moves-IsCareful :
      (shared : Shared T) (sender : SenderPlace T) (writing lock : Bool) (r : Receiver T)
      (place : Place T)
      → (must_wake sender || seen shared.sender_alive shared.id r place) ≡ true
      → Every
          (λ moved. IsCareful shared sender (moved.0))
          (receiver_moves shared writing lock r place)
  unfolding receiver_moves
  receiver_moves-IsCareful shared sender writing lock r Place.absent c = Every-none
  receiver_moves-IsCareful shared sender writing lock r (Place.returned last) c = Every-none
  receiver_moves-IsCareful shared sender writing lock r (Place.alive Call.plain) c =
      Every-if (shared.sender_alive) (λ h. Every-some (or_true (must_wake sender)))
        (λ h. Every-some (or_true (must_wake sender)))
  receiver_moves-IsCareful shared sender writing lock r (Place.alive Call.first) c =
      Every-if (shared.sender_alive) (λ h. Every-some (or_true (must_wake sender)))
        (λ h. Every-some (or_true (must_wake sender)))
  receiver_moves-IsCareful shared sender writing lock r (Place.alive Call.locked) c =
      Every-if (shared.sender_alive)
        (λ h. Every-some (or_better (must_wake sender) true (shared.sender_alive) c (λ _. h)))
        (λ h. Every-some (or_true (must_wake sender)))
  receiver_moves-IsCareful shared sender writing lock r (Place.compare Call.locked) c =
      Every-if (r.last_observed == shared.id)
        (λ h. Every-some (
          or_better (must_wake sender) (shared.sender_alive)
            (up_to_date shared.sender_alive shared.id r) c (λ a. both a h)))
        (λ h. Every-some (or_true (must_wake sender)))
    where
      both : {a b : Bool} → a ≡ true → b ≡ true → (a && b) ≡ true
      both {a = true} e h = h
      both {a = false} e h = e
  receiver_moves-IsCareful shared sender writing lock r (Place.compare Call.plain) c =
      Every-if (r.last_observed == shared.id) (λ h. Every-some (or_true (must_wake sender)))
        (λ h. Every-some (or_true (must_wake sender)))
  receiver_moves-IsCareful shared sender writing lock r (Place.compare Call.first) c =
      Every-if (r.last_observed == shared.id) (λ h. Every-some (or_true (must_wake sender)))
        (λ h. Every-some (or_true (must_wake sender)))
  receiver_moves-IsCareful shared sender writing lock r (Place.unchanged Call.plain) c =
      Every-some c
  receiver_moves-IsCareful shared sender writing lock r (Place.unchanged Call.first) c =
      Every-some c
  receiver_moves-IsCareful shared sender writing lock r (Place.unchanged Call.locked) c =
      Every-some c
  receiver_moves-IsCareful shared sender writing lock r (Place.fetch call) c =
      Every-if writing (λ h. Every-none) (λ h. Every-some (or_true (must_wake sender)))
  receiver_moves-IsCareful shared sender writing lock r Place.acquire c =
      Every-if lock (λ h. Every-none) (λ h. Every-some c)
  receiver_moves-IsCareful shared sender writing lock r Place.waiting c = Every-none
  receiver_moves-IsCareful shared sender writing lock r Place.notified c =
      Every-if lock (λ h. Every-none) (λ h. Every-some c)
  receiver_moves-IsCareful shared sender writing lock r Place.recheck c =
      Every-if (shared.sender_alive) (λ h. Every-some c) (λ h. Every-some c)
  receiver_moves-IsCareful shared sender writing lock r Place.observe c = Every-some c
  receiver_moves-IsCareful shared sender writing lock r Place.copy c =
      Every-if writing (λ h. Every-none) (λ h. Every-some c)
