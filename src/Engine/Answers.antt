-- ===== src/Engine/Answers.antt =====
-- The answers of `Engine::run` and `Engine::recover_and_run` of src/engine.rs, whole calls, beside the
-- journal that they leave.
use yaoki.Prelude.{[], ◌≡◌, sym, ◌∙◌, ap, subst, inl, inr, Result, ok, Result-cases}
use yaoki.Execution.{ExecutionId}
use yaoki.Seq
use yaoki.Journal.{EventPayload, Journal}
use yaoki.Journal.Store.{JournalStore, Contract}
use yaoki.History.{ready, scan}
use yaoki.Context.Cursor
use yaoki.Context.State.{Environment, EngineError}
use yaoki.Context.State
use yaoki.Context.Frame.{Frame}
use yaoki.Engine.Workflow.{Workflow}
use yaoki.Engine.Lifecycle.{
  Execution, created, running, start, new, RecoveredExecution, still_running, already_completed,
  already_failed, recover_from,
}
use yaoki.Engine.Run.{Outcome, finish, run_created, run, resume, recover_and_run}
use yaoki.Engine.Streams.{EmptyOrReadable}
use yaoki.Engine.Entry.{started-Stands, recovered-Stands, Frame-new}
use yaoki.Engine.Start.{StartedAs, start_as}
use yaoki.Engine.Recovery.{
  FoundAs, recover_from_as, acquired, loaded, recover-refused, recover-unloaded, recover-rejected,
  recover-found,
}
use yaoki.Engine.Recorded.{Recorded, finish-Recorded}

module _ {S W E : Type 0} {store : JournalStore S} (contract : Contract store) (env : Environment W)
    (w : Workflow W E) where
  -- The answer of a call on `id` is recorded in the store that the call leaves.
  abbrev RecordedAt : ExecutionId → Outcome S W E → Type 0
  RecordedAt id o = Recorded w o.0 (contract.journal_of o.1 id)

  created-Recorded :
      (input : EventPayload) (e : Execution created) (s : S) (world : W)
      → EmptyOrReadable (contract.journal_of s e.id)
      → RecordedAt e.id (run_created store env w input e s world)
  unfolding run_created
  created-Recorded input e s world h = elim (Result-cases begun.0) [
    | inr (x, q) ↦ rw (q, run_created) tt
    | inl (e', q) ↦
        rw (q, run_created)
          (let (same, m, one) = subst (λ r. StartedAs contract e s (r, begun.1)) q left in
            begun-Recorded e' same one)
  ]
    where
      begun : Result (Execution running) EngineError × S
      begun = start store e w.name w.version input s

      left : StartedAs contract e s begun
      left = start_as contract e s w.name w.version input h (w.name_ok, w.version_ok)

      begun-Recorded :
          (e' : Execution running)
          → e'.id ≡ e.id
          → scan (contract.journal_of begun.1 e.id) ≡ ok (ready Seq.zero)
          → RecordedAt e.id
              (finish store env w e' (State.new begun.1 world e.id (Cursor.new [])) input)
      begun-Recorded e' same one =
          subst
            (λ i.
              RecordedAt i
                (finish store env w e' (State.new begun.1 world e.id (Cursor.new [])) input))
            same
            (finish-Recorded contract env w e' begun.1
              (State.new begun.1 world e.id (Cursor.new [])) input
              (subst (λ i. Frame contract begun.1 i (State.new begun.1 world e.id (Cursor.new [])))
                (sym same) (Frame-new contract begun.1 world e.id (Cursor.new [])))
              (started-Stands contract begun.1 world e.id one))

  -- For a store that keeps the contract and an execution whose journal is empty or readable: when
  -- `run` returns an output, the journal that it leaves reads as completed with that output; when
  -- it returns the workflow's error, the journal reads as failed with that error's debug text.
  -- Nothing is said of an engine error.
  pub run-Recorded :
      (id : ExecutionId) (input : EventPayload) (s : S) (world : W)
      → EmptyOrReadable (contract.journal_of s id)
      → Recorded w
          (run store env id w input s world).0
          (contract.journal_of (run store env id w input s world).1 id)
  unfolding run new
  run-Recorded id input s world h = elim (Result-cases (store.acquire id s).0) [
    | inr (x, q) ↦ rw (q, run) tt
    | inl (u, q) ↦
        rw (q, run)
          (created-Recorded input (record { id = id }) (store.acquire id s).1 world
            (rw (contract.acquire_journal id id s) h))
  ]

  resume-Recorded :
      (id : ExecutionId) (s : S) (world : W) (found : RecoveredExecution) (events : Journal)
      → events ≡ contract.journal_of s id
      → FoundAs id events found
      → RecordedAt id (resume store env w found s world)
  unfolding resume
  resume-Recorded id s world (already_completed e output) events same (f, read) =
      ap scan (contract.release_journal e.id id s ∙ sym same) ∙ read
  resume-Recorded id s world (already_failed e error) events same (f, read) =
      ap scan (contract.release_journal e.id id s ∙ sym same) ∙ read
  resume-Recorded id s world (still_running e cursor invocation) events same (f, at, read) =
      subst
        (λ i. RecordedAt i (finish store env w e (State.new s world e.id cursor) invocation.input))
        f
        (finish-Recorded contract env w e s (State.new s world e.id cursor) invocation.input
          (Frame-new contract s world e.id cursor)
          (rw at (
            recovered-Stands contract s world e.id events
              (same ∙ ap (contract.journal_of s) (sym f)) read)))

  owned-Recorded :
      (id : ExecutionId) (s : S) (world : W)
      → (store.acquire id s).0 ≡ ok tt
      → RecordedAt id (recover_and_run store env id w s world)
  unfolding recover_and_run loaded
  owned-Recorded id s world q = elim (Result-cases (store.load id s1).0) [
    | inr (x, l) ↦ rw (recover-unloaded store id w.name w.version s x q l, recover_and_run) tt
    | inl (events, l) ↦ elim (Result-cases (recover_from id w.name w.version events)) [
      | inr (x, f) ↦
          rw (recover-rejected store id w.name w.version s events x q l f, recover_and_run) tt
      | inl (found, f) ↦
          rw (recover-found store id w.name w.version s events found q l f, recover_and_run)
            (resume-Recorded id (loaded store id w.name w.version s) world found events
              (contract.load_lem id s1 events l ∙ sym (contract.load_journal id id s1))
              (recover_from_as id w.name w.version events found f))
    ]
  ]
    where
      s1 : S
      s1 = acquired store id w.name w.version s

  -- For a store that keeps the contract: when `recover_and_run` returns an output, the journal that
  -- it leaves reads as completed with that output; when it returns an error of the workflow, new or
  -- already recorded, the journal reads as failed with that error's text. Nothing is said of an
  -- engine error.
  pub recover_and_run-Recorded :
      (id : ExecutionId) (s : S) (world : W)
      → Recorded w
          (recover_and_run store env id w s world).0
          (contract.journal_of (recover_and_run store env id w s world).1 id)
  unfolding recover_and_run
  recover_and_run-Recorded id s world = elim (Result-cases (store.acquire id s).0) [
    | inr (x, q) ↦ rw (recover-refused store id w.name w.version s x q, recover_and_run) tt
    | inl (_, q) ↦ owned-Recorded id s world q
  ]
