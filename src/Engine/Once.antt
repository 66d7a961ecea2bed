-- ===== src/Engine/Once.antt =====
-- `Engine::run` and `Engine::recover_and_run` of src/engine.rs on an execution that has begun or has
-- ended.
use yaoki.Prelude.{
  suc, List, [], ◌∷◌, ◌≡◌, refl, ap, false, Option, none, some, Result, ok, err, >>=-eq-ok,
  beq_refl, list_eq, nat_eq, arith,
}
use yaoki.Execution.{ExecutionId, WorkflowName, WorkflowVersion}
use yaoki.Seq
use yaoki.Seq.{EventOffset}
use yaoki.Journal.{EventPayload, JournalEvent, Journal, execution_started}
use yaoki.Journal.Store.{JournalStore}
use yaoki.History.{HistoryState, advance, walk, scan}
use yaoki.History
use yaoki.Context.State.{Environment, existing_execution}
use yaoki.Engine.Invocation
use yaoki.Engine.Invocation.{any_start}
use yaoki.Engine.Workflow.{Workflow}
use yaoki.Engine.Lifecycle.{
  RecoveredExecution, already_completed, already_failed, recover_from, recovered, start,
  start_loaded, new,
}
use yaoki.Engine.Run.{RunError, run, run_created, resume, recover_and_run}
use yaoki.Engine.Recovery.{acquired, loaded, recover-found}

-- No event that the grammar allows behind the first is a start record.
walk-any_start :
    (i : EventOffset) (q : HistoryState) {q' : HistoryState} (xs : List JournalEvent)
    → walk i q xs ≡ ok q'
    → any_start xs ≡ false
unfolding walk any_start Invocation.is_execution_start advance
walk-any_start i q [] h = refl
walk-any_start i q (execution_started w v p ∷ xs) h = cc
walk-any_start i q (x ∷ xs) h =
    let (q1, _, e) = >>=-eq-ok (advance q x i) (λ s. walk (suc i) s xs) h in
    walk-any_start (suc i) q1 xs e

scan-any_start :
    (w : WorkflowName) (v : WorkflowVersion) (p : EventPayload) (rest : Journal) {q : HistoryState}
    → scan (execution_started w v p ∷ rest) ≡ ok q
    → any_start rest ≡ false
unfolding scan
scan-any_start w v p rest h = walk-any_start 1 (HistoryState.ready Seq.zero) rest h

-- The answer that an ended history gives.
abbrev pub answer_of : {E : Type 0} → HistoryState → Option (Result EventPayload (RunError E))
answer_of (HistoryState.completed output) = some (ok output)
answer_of (HistoryState.failed error) = some (err (RunError.recovered error))
answer_of _ = none

-- The execution that an ended history recovers to.
abbrev ended_as : ExecutionId → HistoryState → Option RecoveredExecution
ended_as id (HistoryState.completed output) = some (already_completed (record { id = id }) output)
ended_as id (HistoryState.failed error) = some (already_failed (record { id = id }) error)
ended_as id _ = none

parse-ended :
    (id : ExecutionId) (events : Journal) (state : HistoryState) {found : RecoveredExecution}
    → scan events ≡ ok state
    → ended_as id state ≡ some found
    → History.parse events ≡ ok (record { journal = events; end = state })
unfolding History.parse
parse-ended id events (HistoryState.completed output) h e = rw h refl
parse-ended id events (HistoryState.failed error) h e = rw h refl
parse-ended id events _ h e = cc

recovered-ended :
    (invocation : Invocation.Invocation) (events : Journal) (state : HistoryState)
    {found : RecoveredExecution}
    → ended_as invocation.id state ≡ some found
    → recovered invocation.id invocation
        (History.into_recovery (record { journal = events; end = state }))
      ≡ found
unfolding recovered History.into_recovery
recovered-ended invocation events (HistoryState.completed output) e = ground (arith, e)
recovered-ended invocation events (HistoryState.failed error) e = ground (arith, e)
recovered-ended invocation events _ e = cc

recover_from-ended :
    (id : ExecutionId) (name : WorkflowName) (version : WorkflowVersion) (input : EventPayload)
    (rest : Journal) (state : HistoryState) {found : RecoveredExecution}
    → scan (execution_started name version input ∷ rest) ≡ ok state
    → ended_as id state ≡ some found
    → recover_from id name version (execution_started name version input ∷ rest) ≡ ok found
unfolding recover_from Invocation.parse Invocation.select
recover_from-ended id name version input rest state h e =
    rw
      (
        scan-any_start name version input rest h,
        beq_refl name,
        beq_refl version,
        parse-ended id (execution_started name version input ∷ rest) state h e,
      )
      (ap ok (
        recovered-ended (record { id = id; workflow = name; version = version; input = input })
          (execution_started name version input ∷ rest) state e))

module _ {S W E : Type 0} (store : JournalStore S) (env : Environment W) (w : Workflow W E)
    (id : ExecutionId) (s : S) (world : W) where
  start-existing :
      (s1 : S) (input : EventPayload) (x : JournalEvent) (rest : Journal)
      → (store.load id s1).0 ≡ ok (x ∷ rest)
      → start store (record { id = id }) w.name w.version input s1
        ≡ (err (existing_execution id), store.release id (store.load id s1).1)
  unfolding start start_loaded
  start-existing s1 input x rest l = rw l refl

  -- When the stream can be acquired and the load gives a journal that is not empty, `run` returns
  -- the error `existing_execution`, releases the stream, and makes no other call to the store or to
  -- the world: the workflow does not run.
  pub run_existing :
      (input : EventPayload) (x : JournalEvent) (rest : Journal)
      → (store.acquire id s).0 ≡ ok tt
      → (store.load id (store.acquire id s).1).0 ≡ ok (x ∷ rest)
      → run store env id w input s world ≡ (
        err (RunError.engine (existing_execution id)),
        store.release id (store.load id (store.acquire id s).1).1,
        world,
      )
  unfolding run new
  run_existing input x rest q l =
      rw (q, run)
        (rw (refused, run_created)
          (ap (λ o. (err (RunError.engine (existing_execution id)), o.1, world)) refused))
    where
      refused :
          start store (record { id = id }) w.name w.version input (store.acquire id s).1
          ≡ (err (existing_execution id), store.release id (store.load id (store.acquire id s).1).1)
      refused = start-existing (store.acquire id s).1 input x rest l

  answered :
      (state : HistoryState) {answer : Result EventPayload (RunError E)}
      → answer_of state ≡ some answer
      → (found : RecoveredExecution) × (ended_as id state ≡ some found)
        × ((s' : S) (world : W)
            → resume store env w found s' world ≡ (answer, store.release id s', world))
  unfolding resume
  answered (HistoryState.completed output) a =
      (already_completed (record { id = id }) output, refl, λ s' world. ground (arith, a))
  answered (HistoryState.failed error) a =
      (already_failed (record { id = id }) error, refl, λ s' world. ground (arith, a))
  answered _ a = cc

  -- When the stream can be acquired and the load gives a journal that starts with the workflow's
  -- own name and version and reads as ended, `recover_and_run` returns the recorded output or the
  -- recorded error, releases the stream, and makes no other call to the store or to the world: the
  -- workflow does not run again.
  pub recover_and_run-ended :
      (input : EventPayload) (rest : Journal) (state : HistoryState)
      {answer : Result EventPayload (RunError E)}
      → (store.acquire id s).0 ≡ ok tt
      → (store.load id (store.acquire id s).1).0
        ≡ ok (execution_started w.name w.version input ∷ rest)
      → scan (execution_started w.name w.version input ∷ rest) ≡ ok state
      → answer_of state ≡ some answer
      → recover_and_run store env id w s world
        ≡ (answer, store.release id (store.load id (store.acquire id s).1).1, world)
  unfolding recover_and_run resume acquired loaded
  recover_and_run-ended input rest state q l h a =
      let (found, e, f) = answered state a in
      rw
        (
          recover-found store id w.name w.version s
              (execution_started w.name w.version input ∷ rest) found q l
              (recover_from-ended id w.name w.version input rest state h e),
          recover_and_run,
        )
        (f (loaded store id w.name w.version s) world)
