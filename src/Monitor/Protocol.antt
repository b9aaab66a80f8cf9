-- ===== src/Monitor/Protocol.antt =====
-- Which histories of a hashchain are accepted: messages that follow `[Off -> On -> Running*]*`, in
-- time.
use kasop.Common.{
  ℕ, ◌<◌, ◌≡◌, refl, ◌↔◌, List, [], ◌∷◌, arith, leb, if◌then◌else◌, Bool, true, false,
}
use kasop.Monitor.Chain.{
  Message, ChainState, Fault, transition, tick, start_timeout, run_update_timeout, duration_since,
}

-- What reaches a chain: a message, or a tick of the monitor, each at its time.
pub data Event : Type 0 where
  message : ℕ → Message → Event
  timer : ℕ → Event

unfoldable pub step : ChainState → Event → ChainState
unfolding transition tick
step s (message now m) = transition s now m
step s (timer now) = tick s now

unfoldable pub run : ChainState → List Event → ChainState
unfolding step
run s [] = s
run s (e ∷ es) = run (step s e) es

-- The pattern of the comment on `Message`, with the two timeouts: `Idle` holds of what may follow
-- while the chain is off, `Started s` while it starts since `s`, and `Alive h` while its last
-- heartbeat was at `h`.
mutual
  pub Idle : List Event → Type 0
  Idle [] = Unit {0}
  Idle (message now Message.on ∷ es) = Started now es
  Idle (timer now ∷ es) = Idle es
  Idle (message now (Message.running t) ∷ es) = ⊥
  Idle (message now Message.off ∷ es) = ⊥

  pub Started : ℕ → List Event → Type 0
  Started s [] = Unit {0}
  Started s (message now (Message.running t) ∷ es) = Alive now es
  Started s (message now Message.off ∷ es) = Idle es
  Started s (message now Message.on ∷ es) = ⊥
  Started s (timer now ∷ es) = (duration_since now s < start_timeout) × Started s es

  pub Alive : ℕ → List Event → Type 0
  Alive h [] = Unit {0}
  Alive h (message now (Message.running t) ∷ es) = Alive now es
  Alive h (message now Message.off ∷ es) = Idle es
  Alive h (message now Message.on ∷ es) = ⊥
  Alive h (timer now ∷ es) = (duration_since now h < run_update_timeout) × Alive h es

abbrev pub IsBroken : ChainState → Type 0
IsBroken (ChainState.broken e) = Unit {0}
IsBroken ChainState.off = ⊥
IsBroken (ChainState.on s) = ⊥
IsBroken (ChainState.running s h t) = ⊥

step-broken : (f : Fault) (e : Event) → IsBroken (step (ChainState.broken f) e)
unfolding step transition tick
step-broken f (message now Message.on) = tt
step-broken f (message now Message.off) = tt
step-broken f (message now (Message.running t)) = tt
step-broken f (timer now) = tt

run-IsBroken : (s : ChainState) → IsBroken s → (es : List Event) → IsBroken (run s es)
unfolding run
run-IsBroken s h [] = h
run-IsBroken (ChainState.broken f) h (e ∷ es) =
    run-IsBroken (step (ChainState.broken f) e) (step-broken f e) es
run-IsBroken (ChainState.on _) h (e ∷ es) = absurd h
run-IsBroken (ChainState.running _ _ _) h (e ∷ es) = absurd h
run-IsBroken ChainState.off h (e ∷ es) = absurd h

-- The accepted histories in a state.
abbrev Fits : ChainState → List Event → Type 0
Fits ChainState.off es = Idle es
Fits (ChainState.on s) es = Started s es
Fits (ChainState.running s h t) es = Alive h es
Fits (ChainState.broken f) es = ⊥

-- One event of an accepted history leads to a state that accepts the rest.
Fits-step : (s : ChainState) (e : Event) (es : List Event) → Fits s (e ∷ es) → Fits (step s e) es
unfolding step transition tick Idle Started Alive
Fits-step ChainState.off (message now Message.on) es h = h
Fits-step ChainState.off (message now Message.off) es h = h
Fits-step ChainState.off (message now (Message.running t)) es h = h
Fits-step ChainState.off (timer now) es h = h
Fits-step (ChainState.on s) (message now Message.on) es h = h
Fits-step (ChainState.on s) (message now Message.off) es h = h
Fits-step (ChainState.on s) (message now (Message.running t)) es h = h
Fits-step (ChainState.on s) (timer now) es (h, r) =
    let e : leb start_timeout (duration_since now s) ≡ false = ground arith in rw e r
Fits-step (ChainState.running s l t) (message now Message.on) es h = h
Fits-step (ChainState.running s l t) (message now Message.off) es h = h
Fits-step (ChainState.running s l t) (message now (Message.running u)) es h = h
Fits-step (ChainState.running s l t) (timer now) es (h, r) =
    let e : leb run_update_timeout (duration_since now l) ≡ false = ground arith in rw e r
Fits-step (ChainState.broken f) e es h = absurd h

-- And a history is accepted where one event leads to a state that accepts the rest.
step-Fits : (s : ChainState) (e : Event) (es : List Event) → Fits (step s e) es → Fits s (e ∷ es)
unfolding step transition tick Idle Started Alive
step-Fits ChainState.off (message now Message.on) es h = h
step-Fits ChainState.off (message now Message.off) es h = h
step-Fits ChainState.off (message now (Message.running t)) es h = h
step-Fits ChainState.off (timer now) es h = h
step-Fits (ChainState.on s) (message now Message.on) es h = h
step-Fits (ChainState.on s) (message now Message.off) es h = h
step-Fits (ChainState.on s) (message now (Message.running t)) es h = h
step-Fits (ChainState.on s) (timer now) es h =
    in_time (leb start_timeout (duration_since now s)) refl h
  where
    in_time :
        (b : Bool)
        → leb start_timeout (duration_since now s) ≡ b
        → Fits (if b then ChainState.broken Fault.took_too_long_to_start else ChainState.on s) es
        → (duration_since now s < start_timeout) × Started s es
    in_time true e h = absurd h
    in_time false e h = (ground arith, h)
step-Fits (ChainState.running s l t) (message now Message.on) es h = h
step-Fits (ChainState.running s l t) (message now Message.off) es h = h
step-Fits (ChainState.running s l t) (message now (Message.running u)) es h = h
step-Fits (ChainState.running s l t) (timer now) es h =
    in_time (leb run_update_timeout (duration_since now l)) refl h
  where
    in_time :
        (b : Bool)
        → leb run_update_timeout (duration_since now l) ≡ b
        → Fits
            (if b then ChainState.broken Fault.failed_to_set_update else ChainState.running s l t)
            es
        → (duration_since now l < run_update_timeout) × Alive l es
    in_time true e h = absurd h
    in_time false e h = (ground arith, h)
step-Fits (ChainState.broken f) (message now Message.on) es h = h
step-Fits (ChainState.broken f) (message now Message.off) es h = h
step-Fits (ChainState.broken f) (message now (Message.running t)) es h = h
step-Fits (ChainState.broken f) (timer now) es h = h

Fits-run : (s : ChainState) (es : List Event) → Fits s es ↔ (¬ IsBroken (run s es))
unfolding run Idle Started Alive
Fits-run ChainState.off [] = (λ _ b. b, λ _. tt)
Fits-run (ChainState.on s) [] = (λ _ b. b, λ _. tt)
Fits-run (ChainState.running s h t) [] = (λ _ b. b, λ _. tt)
Fits-run (ChainState.broken f) [] = (λ h _. h, λ h. h tt)
Fits-run s (e ∷ es) =
    let (there, back) = Fits-run (step s e) es in
    (λ h. there (Fits-step s e es h), λ h. step-Fits s e es (back h))

-- A chain that was off when a history of messages and ticks began is broken at its end exactly if
-- the history does not follow the pattern `[Off -> On -> Running*]*` with, at each tick, less than
-- `START_TIMEOUT` since an `On` that no `Running` followed, and less than `RUN_UPDATE_TIMEOUT`
-- since the last `Running`.
pub run_protocol : (es : List Event) → Idle es ↔ (¬ IsBroken (run ChainState.off es))
run_protocol es = Fits-run ChainState.off es

-- A broken chain is broken after any messages and ticks that follow: there is no way out.
pub run_stays-IsBroken :
    (s : ChainState) (es later : List Event) → IsBroken (run s es) → IsBroken (run (run s es) later)
run_stays-IsBroken s es later h = run-IsBroken (run s es) h later
