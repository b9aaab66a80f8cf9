-- ===== src/Stratum/Shares.antt =====
-- src/client/stratum.rs: every share that was sent is counted once.
use kasop.Common.{
  ℕ, suc, ◌+◌, ◌^◌, ◌≤◌, ◌<◌, Bool-cases, false, List, [], ◌∷◌, length, All, none, some, Outcome,
  ok, panic, ◌==◌, ◌≡◌, ◌⊎◌, inl, inr, refl, ap, ◌∙◌, arith,
}
use native.Mathlib.Nat.{mod-eq_of_lt}
use kasop.Stratum.{Text, ErrorCode, ShareStats}
use kasop.Stratum.Handler.{remove, counted, share_accepted, share_refused, count_error}

-- The shares that were answered, and those that wait for an answer.
unfoldable pub total : ShareStats → ℕ
total stats =
    stats.accepted + stats.stale + stats.low_diff + stats.duplicate + length stats.shares_pending

-- Every key is below an id.
abbrev pub Below : ℕ → List (ℕ × Text) → Type 0
Below id = All (λ entry. entry.0 < id)

-- A key that is removed was there once more, or there is nothing to remove.
remove-cases :
    (id : ℕ) (entries : List (ℕ × Text))
    → (((remove id entries).0 ≡ none) × ((remove id entries).1 ≡ entries))
      ⊎ ((text : Text) × ((remove id entries).0 ≡ some text)
          × (suc (length (remove id entries).1) ≡ length entries))
unfolding remove
remove-cases id [] = inl (refl, refl)
remove-cases id (entry ∷ entries) = elim (Bool-cases (id == entry.0)) [
  | inl e ↦ rw e (inr (entry.1, refl, refl))
  | inr e ↦ rw e (elim (remove-cases id entries) [
    | inl (f, g) ↦ inl (f, ap (λ (es : List (ℕ × Text)). entry ∷ es) g)
    | inr (text, f, g) ↦ inr (text, f, ap suc g)
  ])
]

pub Below-remove :
    (id top : ℕ) (entries : List (ℕ × Text)) → Below top entries → Below top (remove id entries).1
unfolding remove
Below-remove id top [] h = tt
Below-remove id top (entry ∷ entries) (h, hs) = elim (Bool-cases (id == entry.0)) [
  | inl e ↦ rw e hs
  | inr e ↦ rw e (h, Below-remove id top entries hs)
]

-- An id that is not below the bound is no key.
pub remove-fresh :
    (id top : ℕ) (entries : List (ℕ × Text))
    → Below top entries
    → top ≤ id
    → remove id entries ≡ (none, entries)
unfolding remove
remove-fresh id top [] h p = refl
remove-fresh id top (entry ∷ entries) (h, hs) p =
    let other : (id == entry.0) ≡ false = ground arith in
    rw other (rw (remove-fresh id top entries hs p) refl)

counted-lt : (n : ℕ) → n + 1 < 2 ^ 64 → counted n ≡ n + 1
unfolding counted
counted-lt n h = mod-eq_of_lt h

pub share_accepted-total :
    (id : ℕ) (stats : ShareStats)
    → total stats < 2 ^ 64
    → total (share_accepted id stats) ≡ total stats
unfolding share_accepted total
share_accepted-total id stats h = elim (remove-cases id stats.shares_pending) [
  | inl (e, f) ↦ rw (share_accepted, e) refl
  | inr (text, e, f) ↦
      rw (share_accepted, e) (omega (arith, f, counted-lt stats.accepted (omega arith)))
]

-- Where the client goes on, the share was counted.
count_error-total :
    (code : ErrorCode) (stats : ShareStats)
    → total stats + 1 < 2 ^ 64
    → (count_error code stats).1 ≡ ok tt
    → total (count_error code stats).0 ≡ total stats + 1
unfolding total
count_error-total ErrorCode.unknown stats h e = absurd (cc)
count_error-total ErrorCode.job_not_found stats h e =
    omega (arith, counted-lt stats.stale (omega arith))
count_error-total ErrorCode.duplicate_share stats h e =
    omega (arith, counted-lt stats.duplicate (omega arith))
count_error-total ErrorCode.low_difficulty_share stats h e =
    omega (arith, counted-lt stats.low_diff (omega arith))
count_error-total ErrorCode.unauthorized stats h e = absurd (cc)
count_error-total ErrorCode.not_subscribed stats h e = absurd (cc)

one_pending :
    (id : ℕ) (stats : ShareStats)
    → suc (length (remove id stats.shares_pending).1) ≡ length stats.shares_pending
    → total (record stats { shares_pending = (remove id stats.shares_pending).1 }) + 1 ≡ total stats
unfolding total
one_pending id stats h = omega (arith, h)

pub share_refused-total :
    (id : ℕ) (code : ErrorCode) (stats : ShareStats)
    → total stats < 2 ^ 64
    → (share_refused id code stats).1 ≡ ok tt
    → total (share_refused id code stats).0 ≡ total stats
unfolding share_refused
share_refused-total id code stats h e = elim (remove-cases id stats.shares_pending) [
  | inl (f, g) ↦
      let wrong : ◌≡◌ {A = Outcome (Unit {0})} panic (ok tt) = rw (share_refused, f) at e in
      absurd (cc)
  | inr (text, f, g) ↦
      let rest = record stats { shares_pending = (remove id stats.shares_pending).1 } in
      let one_less : total rest + 1 ≡ total stats = one_pending id stats g in
      let fine : (count_error code rest).1 ≡ ok tt = rw (share_refused, f) at e in
      rw (share_refused, f)
        (count_error-total code rest (omega (arith, one_less, h)) fine ∙ one_less)
]
