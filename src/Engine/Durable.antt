-- ===== src/Engine/Durable.antt =====
-- What `Engine::recover_and_run` of src/engine.rs answers after an output of `Engine::run`.
use yaoki.Journal.WellFormed.{IsWellFormed}
use yaoki.Prelude.{
  [], ◌∷◌, ◌++◌, ◌≡◌, refl, sym, ◌∙◌, ap, subst, inl, inr, Result, ok, err, ◌>>=◌, map_err,
  Result-cases, Bool-cases,
}
use yaoki.Text.{is_empty}
use yaoki.Execution.{ExecutionId, WorkflowName, WorkflowVersion}
use yaoki.Seq.{EventOffset}
use yaoki.Journal.{EventPayload, JournalEvent, Journal, JournalError, execution_started}
use yaoki.Journal.Store.{JournalStore, Contract, Appended}
use yaoki.Journal.Extends.{Extends}
use yaoki.History.{HistoryState, scan}
use yaoki.Context.Cursor
use yaoki.Context.State.{Environment, EngineError, journal}
use yaoki.Context.State
use yaoki.Engine.Workflow.{Workflow}
use yaoki.Engine.Lifecycle
use yaoki.Engine.Lifecycle.{Execution, created, running, start, start_loaded, new}
use yaoki.Engine.Run.{RunError, finish, run_created, run, recover_and_run}
use yaoki.Engine.Streams.{EmptyOrReadable, Moves-refl}
use yaoki.Engine.Start.{StartedAs, start_as, is_empty_nil, begun-Closed}
use yaoki.Engine.Recorded.{Recorded}
use yaoki.Engine.Answers.{run-Recorded}
use yaoki.Engine.Once.{recover_and_run-ended}

module _ {S : Type 0} {store : JournalStore S} (contract : Contract store) where
  -- What a result of `start` says, if it is a success.
  abbrev Begun : ExecutionId → Journal → Result (Execution running) EngineError × S → Type 0
  Begun id events (ok e, s) = contract.journal_of s id ≡ events
  Begun id events (err error, s) = Unit

  append_to-Begun :
      (e : Execution created) (event : JournalEvent) (s : S)
      → IsWellFormed event
      → contract.journal_of s e.id ≡ []
      → Begun e.id (event ∷ []) (Lifecycle.append_to store running e event s)
  append_to-Begun e event s valid empty =
      go (store.append e.id event s).0 (store.append e.id event s).1
        (contract.append_lem e.id event s valid)
    where
      go :
          (r : Result EventOffset JournalError) (s2 : S)
          → Appended (contract.journal_of s e.id) event r (contract.journal_of s2 e.id)
          → Begun e.id (event ∷ []) (
              Lifecycle.or_drop store e.id
                (map_err journal r >>= λ _. ok (record { id = e.id }), s2))
      go (ok n) s2 (_, a) = a ∙ ap (λ j. j ++ event ∷ []) empty
      go (err x) s2 a = tt

  start-Begun :
      (e : Execution created) (s : S) (w : WorkflowName) (v : WorkflowVersion) (p : EventPayload)
      → IsWellFormed (execution_started w v p)
      → Begun e.id (execution_started w v p ∷ []) (start store e w v p s)
  unfolding start start_loaded
  start-Begun e s w v p valid = elim (Result-cases (store.load e.id s).0) [
    | inr (x, q) ↦ rw (q, start_loaded) tt
    | inl (events, q) ↦ elim (Bool-cases (is_empty events)) [
      | inr t ↦ rw (q, start_loaded) (rw t tt)
      | inl t ↦
          rw (q, start_loaded)
            (rw t (
              append_to-Begun e (execution_started w v p) (store.load e.id s).1 valid (
                contract.load_journal e.id e.id s
                ∙ sym (contract.load_lem e.id s events q)
                ∙ is_empty_nil contract events t)))
    ]
  ]

module _ {S W E : Type 0} {store : JournalStore S} (contract : Contract store) (env : Environment W)
    (w : Workflow W E) (input : EventPayload) where
  -- What an answer of `run` says of the first event of the journal, if it is an output.
  abbrev Opened : Result EventPayload (RunError E) → Journal → Type 0
  Opened (ok output) events = Extends (execution_started w.name w.version input ∷ []) events
  Opened (err error) events = Unit

  Extends-Opened :
      (r : Result EventPayload (RunError E)) (events : Journal)
      → Extends (execution_started w.name w.version input ∷ []) events
      → Opened r events
  Extends-Opened (ok output) events h = h
  Extends-Opened (err error) events h = tt

  created-Opened :
      (e : Execution created) (s : S) (world : W)
      → EmptyOrReadable (contract.journal_of s e.id)
      → Opened
          (run_created store env w input e s world).0
          (contract.journal_of (run_created store env w input e s world).1 e.id)
  unfolding run_created
  created-Opened e s world h = elim (Result-cases begun.0) [
    | inr (x, q) ↦ rw (q, run_created) tt
    | inl (e', q) ↦
        rw (q, run_created)
          (let (same, _, one) =
              subst (λ r. StartedAs contract e s (r, begun.1)) q
                (start_as contract e s w.name w.version input h (w.name_ok, w.version_ok)) in
            let first =
              subst
                (λ r.
                  Begun contract e.id (execution_started w.name w.version input ∷ []) (r, begun.1))
                q (start-Begun contract e s w.name w.version input (w.name_ok, w.version_ok)) in
            let ended =
              begun-Closed contract env w input e begun.1 begun.1 world e' same
                (Moves-refl contract e.id begun.1) one in
            Extends-Opened _ _ (
              subst
                (λ j. Extends j (
                  contract.journal_of
                    (finish store env w e' (State.new begun.1 world e.id (Cursor.new [])) input).1
                    e.id))
                first ended.moves.grows))
  ]
    where
      begun : Result (Execution running) EngineError × S
      begun = start store e w.name w.version input s

  run-Opened :
      (id : ExecutionId) (s : S) (world : W)
      → EmptyOrReadable (contract.journal_of s id)
      → Opened
          (run store env id w input s world).0
          (contract.journal_of (run store env id w input s world).1 id)
  unfolding run new
  run-Opened id s world h = elim (Result-cases (store.acquire id s).0) [
    | inr (x, q) ↦ rw (q, run) tt
    | inl (u, q) ↦
        rw (q, run)
          (created-Opened (record { id = id }) (store.acquire id s).1 world
            (rw (contract.acquire_journal id id s) h))
  ]

  -- For a store that keeps the contract and an execution whose journal is empty or readable: when
  -- `run` has returned an output, `recover_and_run` of the same workflow on the store that it left,
  -- in any environment and state of the world, returns the same output if it acquires the stream
  -- and loads the journal; it then releases the stream and makes no other call to the store or to
  -- the world.
  pub recover_and_run-run :
      (id : ExecutionId) (s : S) (world : W) (output : EventPayload) (events : Journal)
      (env' : Environment W) (world' : W)
      → EmptyOrReadable (contract.journal_of s id)
      → (run store env id w input s world).0 ≡ ok output
      → (store.acquire id (run store env id w input s world).1).0 ≡ ok tt
      → (store.load id (store.acquire id (run store env id w input s world).1).1).0 ≡ ok events
      → recover_and_run store env' id w (run store env id w input s world).1 world' ≡ (
        ok output,
        store.release id
            (store.load id (store.acquire id (run store env id w input s world).1).1).1,
        world',
      )
  recover_and_run-run id s world output events env' world' h r q l =
      let (rest, opened) = subst (λ x. Opened x recorded) r (run-Opened id s world h) in
      let read : scan recorded ≡ ok (HistoryState.completed output) =
        subst (λ x. Recorded w x recorded) r (run-Recorded contract env w id input s world h) in
      let loaded : events ≡ execution_started w.name w.version input ∷ rest =
        contract.load_lem id (store.acquire id after).1 events l
        ∙ contract.acquire_journal id id after
        ∙ opened in
      recover_and_run-ended store env' w id after world' input rest (HistoryState.completed output)
        q (l ∙ ap ok loaded) (ap scan (sym opened) ∙ read) refl
    where
      after : S
      after = (run store env id w input s world).1

      recorded : Journal
      recorded = contract.journal_of after id
