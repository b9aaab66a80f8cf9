-- ===== src/Halt/Order.antt =====
-- src/halt.rs: the order of a halt, and what is left where a client fails.
use kasop.Common.{
  append_assoc, append-nil, List, [], ◌∷◌, ◌++◌, ok, err, ErrorKind, ◌≡◌, refl, ap, ◌∙◌, All,
}
use kasop.Halt.{
  Reply, Happened, notified, hook_ran, Sender, note, take_clients, run_hooks, halt_clients,
  send_halt_internal,
}

-- A client that does not confirm.
abbrev pub Fails : Reply → Type 0
Fails Reply.ended = ⊥
Fails Reply.confirmed = ⊥
Fails Reply.dropped_handle = Unit {0}
Fails Reply.timeout = Unit {0}

abbrev pub Obeys : Reply → Type 0
Obeys Reply.ended = Unit {0}
Obeys Reply.confirmed = Unit {0}
Obeys Reply.dropped_handle = ⊥
Obeys Reply.timeout = ⊥

module _ {C H : Type 0} (reply : C → Reply) where
  -- The notifications of clients that have not ended.
  abbrev pub notice : C → Reply → List (Happened C H)
  notice c Reply.ended = []
  notice c Reply.confirmed = notified c ∷ []
  notice c Reply.dropped_handle = notified c ∷ []
  notice c Reply.timeout = notified c ∷ []

  abbrev pub notices : List C → List (Happened C H)
  notices [] = []
  notices (c ∷ cs) = notice c (reply c) ++ notices cs

abbrev pub hook_runs : {C H : Type 0} → List H → List (Happened C H)
hook_runs [] = []
hook_runs (h ∷ hs) = hook_ran h ∷ hook_runs hs

module _ {C H : Type 0} where
  run_hooks_lem :
      (hooks : List H) (s : Sender C H)
      → run_hooks hooks s ≡ (record s { happened = s.happened ++ hook_runs hooks }, ok tt)
  unfolding run_hooks
  run_hooks_lem [] s = rw (append-nil s.happened) refl
  run_hooks_lem (h ∷ hooks) s =
      run_hooks_lem hooks (note (hook_ran h) s)
      ∙ ap (λ l. (record s { happened = l }, ok tt))
          (append_assoc s.happened (hook_ran h ∷ []) (hook_runs hooks))

module _ {C H : Type 0} (reply : C → Reply) where
  obeyed :
      (clients : List C) (s : Sender C H)
      → All (λ c. Obeys (reply c)) clients
      → halt_clients reply clients s
        ≡ (record s { happened = s.happened ++ notices reply clients }, ok tt)
  unfolding halt_clients
  obeyed [] s h = rw (append-nil s.happened) refl
  obeyed (c ∷ clients) s (o, h) = go (reply c) refl o (λ t. obeyed clients t h)
    where
      go :
          (r : Reply)
          → reply c ≡ r
          → Obeys r
          → ((t : Sender C H)
              → halt_clients reply clients t
                ≡ (record t { happened = t.happened ++ notices reply clients }, ok tt))
          → halt_clients reply (c ∷ clients) s
            ≡ (record s { happened = s.happened ++ notices reply (c ∷ clients) }, ok tt)
      go Reply.ended e o rest = rw (halt_clients, e) (rest s)
      go Reply.confirmed e o rest =
          rw (halt_clients, e)
            (rest (note (notified c) s)
              ∙ ap (λ l. (record s { happened = l }, ok tt))
                  (append_assoc s.happened (notified c ∷ []) (notices reply clients)))
      go Reply.dropped_handle e o rest = absurd o
      go Reply.timeout e o rest = absurd o

  failed :
      (before : List C) (c : C) (after : List C) (s : Sender C H)
      → All (λ d. Obeys (reply d)) before
      → Fails (reply c)
      → halt_clients reply (before ++ c ∷ after) s ≡ (
        record s { happened = s.happened ++ (notices reply before ++ notified c ∷ []) },
        err ErrorKind.halt,
      )
  unfolding halt_clients
  failed [] c after s h f = go (reply c) refl f
    where
      go :
          (r : Reply)
          → reply c ≡ r
          → Fails r
          → halt_clients reply (c ∷ after) s
            ≡ (record s { happened = s.happened ++ notified c ∷ [] }, err ErrorKind.halt)
      go Reply.dropped_handle e f = rw (halt_clients, e) refl
      go Reply.timeout e f = rw (halt_clients, e) refl
      go Reply.ended e f = absurd f
      go Reply.confirmed e f = absurd f
  failed (d ∷ before) c after s (o, h) f = go (reply d) refl o (λ t. failed before c after t h f)
    where
      go :
          (r : Reply)
          → reply d ≡ r
          → Obeys r
          → ((t : Sender C H)
              → halt_clients reply (before ++ c ∷ after) t ≡ (
                record t { happened = t.happened ++ (notices reply before ++ notified c ∷ []) },
                err ErrorKind.halt,
              ))
          → halt_clients reply (d ∷ (before ++ c ∷ after)) s ≡ (
            record s { happened = s.happened ++ (notices reply (d ∷ before) ++ notified c ∷ []) },
            err ErrorKind.halt,
          )
      go Reply.ended e o rest = rw (halt_clients, e) (rest s)
      go Reply.confirmed e o rest =
          rw (halt_clients, e)
            (rest (note (notified d) s)
              ∙ ap (λ l. (record s { happened = l }, err ErrorKind.halt))
                  (append_assoc s.happened (notified d ∷ [])
                    (notices reply before ++ notified c ∷ [])))
      go Reply.dropped_handle e o rest = absurd o
      go Reply.timeout e o rest = absurd o

  -- Where each client has ended or confirms, the halt succeeds: the clients that have not ended are
  -- notified in the order in which they were registered, then the hooks run in theirs, and no client
  -- and no hook is left.
  pub send_halt_internal-obeyed :
      (s : Sender C H)
      → All (λ c. Obeys (reply c)) s.clients
      → send_halt_internal reply s ≡ (
        record {
          clients = [];
          exit_hooks = [];
          happened = (s.happened ++ notices reply s.clients) ++ hook_runs s.exit_hooks;
        },
        ok tt,
      )
  unfolding send_halt_internal
  send_halt_internal-obeyed s h =
      rw (obeyed s.clients (take_clients s) h) (run_hooks_lem s.exit_hooks _)

  -- The first client that drops the handle or does not answer in time ends the halt with an error:
  -- the clients behind it are not notified and are registered no more, and no hook runs.
  pub send_halt_internal-failed :
      (before : List C) (c : C) (after : List C) (s : Sender C H)
      → s.clients ≡ before ++ c ∷ after
      → All (λ d. Obeys (reply d)) before
      → Fails (reply c)
      → send_halt_internal reply s ≡ (
        record {
          clients = [];
          exit_hooks = s.exit_hooks;
          happened = s.happened ++ (notices reply before ++ notified c ∷ []);
        },
        err ErrorKind.halt,
      )
  unfolding send_halt_internal
  send_halt_internal-failed before c after s e h f =
      rw e (rw (failed before c after (take_clients s) h f) refl)
