-- ===== src/Watch/Guarded.antt =====
-- src/watch.rs: what holds of the lock and the receivers in every state, and stays so when one
-- receiver moves.
use kasop.Common.{
  ℕ, Bool, true, Option, none, some, ◌==◌, ◌≡◌, refl, sym, ap, subst, ◌∙◌, ◌⊎◌, inl, inr,
  Bool-cases, ==_iff, ◌≢◌,
}
use kasop.Watch.{ChannelState, Receiver, set_receiver, put_receiver, put_some, with_count}
use kasop.Watch.Locking.{Every, Every-none, Every-some, holds, IsCareful, Locks}

-- At most one receiver holds the lock, which is taken then; and each is careful.
pub record Guarded {T : Type 0} (s : ChannelState T) : Type 0 where
  pub taken : (i : ℕ) → holds ((s.receivers i).place) ≡ true → s.lock ≡ true
  pub one :
      (i j : ℕ)
      → holds ((s.receivers i).place) ≡ true
      → holds ((s.receivers j).place) ≡ true
      → i ≡ j
  pub careful : (i : ℕ) → IsCareful s.shared s.sender (s.receivers i)

module _ {T : Type 0} where
  set_receiver-cases :
      (i j : ℕ) (r : Receiver T) (rs : ℕ → Receiver T)
      → ((j ≡ i) × (set_receiver i r rs j ≡ r)) ⊎ ((j ≢ i) × (set_receiver i r rs j ≡ rs j))
  set_receiver-cases i j r rs = elim (Bool-cases (j == i)) [
    | inl e ↦ inl ((==_iff j i).0 e, rw e refl)
    | inr e ↦ inr (λ p. let t : (j == i) ≡ true = (==_iff j i).1 p in absurd (cc), rw e refl)
  ]

  holds-cases :
      (i j : ℕ) (r : Receiver T) (rs : ℕ → Receiver T)
      → holds ((set_receiver i r rs j).place) ≡ true
      → ((j ≡ i) × (holds (r.place) ≡ true)) ⊎ ((j ≢ i) × (holds ((rs j).place) ≡ true))
  holds-cases i j r rs h = elim (set_receiver-cases i j r rs) [
    | inl (e, f) ↦ inl (e, sym (ap (λ x. holds (x.place)) f) ∙ h)
    | inr (n, f) ↦ inr (n, sym (ap (λ x. holds (x.place)) f) ∙ h)
  ]

  -- The lock, told of one receiver that moves.
  pub put_receiver-Guarded :
      (i : ℕ) (s : ChannelState T) (moved : Receiver T × Bool)
      → Guarded s
      → Locks s.lock ((s.receivers i).place) moved
      → IsCareful s.shared s.sender (moved.0)
      → Guarded (put_receiver i s moved)
  put_receiver-Guarded i s (r, lock) g l c = record { taken = taken; one = one; careful = careful }
    where
      taken : (j : ℕ) → holds ((set_receiver i r s.receivers j).place) ≡ true → lock ≡ true
      taken j h = elim (holds-cases i j r s.receivers h) [
        | inl (e, k) ↦ elim l [
          | inl (p, q) ↦ q ∙ g.taken i (sym p ∙ k)
          | inr (inl (p, q)) ↦ q
          | inr (inr (p, q, u)) ↦ absurd (cc)
        ]
        | inr (n, k) ↦ elim l [
          | inl (p, q) ↦ q ∙ g.taken j k
          | inr (inl (p, q)) ↦ q
          | inr (inr (p, q, u)) ↦ absurd (n (g.one j i k p))
        ]
      ]

      -- Another receiver that holds the lock.
      other : (k : ℕ) → holds (r.place) ≡ true → holds ((s.receivers k).place) ≡ true → i ≡ k
      other k h m = elim l [
        | inl (p, q) ↦ g.one i k (sym p ∙ h) m
        | inr (inl (p, q)) ↦ let t : s.lock ≡ true = g.taken k m in absurd (cc)
        | inr (inr (p, q, u)) ↦ absurd (cc)
      ]

      one :
          (j k : ℕ)
          → holds ((set_receiver i r s.receivers j).place) ≡ true
          → holds ((set_receiver i r s.receivers k).place) ≡ true
          → j ≡ k
      one j k h m = elim (holds-cases i j r s.receivers h) [
        | inl (e, a) ↦ elim (holds-cases i k r s.receivers m) [
          | inl (f, b) ↦ e ∙ sym f
          | inr (f, b) ↦ e ∙ other k a b
        ]
        | inr (e, a) ↦ elim (holds-cases i k r s.receivers m) [
          | inl (f, b) ↦ sym (f ∙ other j b a)
          | inr (f, b) ↦ g.one j k a b
        ]
      ]

      careful : (j : ℕ) → IsCareful s.shared s.sender (set_receiver i r s.receivers j)
      careful j = elim (set_receiver-cases i j r s.receivers) [
        | inl (e, f) ↦ subst (λ x. IsCareful s.shared s.sender x) (sym f) c
        | inr (n, f) ↦ subst (λ x. IsCareful s.shared s.sender x) (sym f) (g.careful j)
      ]

  pub put_some-Guarded :
      (i : ℕ) (s : ChannelState T) (o : Option (Receiver T × Bool))
      → Guarded s
      → Every (Locks s.lock ((s.receivers i).place)) o
      → Every (λ moved. IsCareful s.shared s.sender (moved.0)) o
      → Every Guarded (put_some i s o)
  put_some-Guarded i s none g l c = Every-none
  put_some-Guarded i s (some moved) g l c =
      Every-some (put_receiver-Guarded i s moved g (l.every moved refl) (c.every moved refl))

  pub with_count-Guarded : (n : ℕ) (s : ChannelState T) → Guarded s → Guarded (with_count n s)
  with_count-Guarded n s g = record { taken = g.taken; one = g.one; careful = g.careful }
