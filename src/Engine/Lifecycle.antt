-- ===== src/Engine/Lifecycle.antt =====
-- `Execution` of src/engine.rs: a handle that owns its stream until it is dropped, tagged with its
-- lifecycle state. Where a method consumes a handle and fails, the handle is dropped there.
use yaoki.Prelude.{Result, ok, err, ◌>>=◌, ◌>>◌, map_err, if◌then◌else◌}
use yaoki.Text.{is_empty}
use yaoki.Execution.{ExecutionId, WorkflowName, WorkflowVersion, WorkflowErrorRecord}
use yaoki.Journal.{
  JournalEvent, Journal, EventPayload, execution_started, execution_completed, execution_failed,
}
use yaoki.Journal.Store.{JournalStore}
use yaoki.History
use yaoki.History.{ValidatedHistory, RecoveryHistory}
use yaoki.Context.State.{EngineError, existing_execution, journal, history}
use yaoki.Context.Cursor
use yaoki.Context.Cursor.{ReplayCursor}
use yaoki.Engine.Invocation
use yaoki.Engine.Invocation.{Invocation}

pub data Lifecycle : Type 0 where
  created running completed failed : Lifecycle

pub record Execution (state : Lifecycle) : Type 0 where
  pub id : ExecutionId

pub data RecoveredExecution : Type 0 where
  still_running : Execution running → ReplayCursor → Invocation → RecoveredExecution
  already_completed : Execution completed → EventPayload → RecoveredExecution
  already_failed : Execution failed → WorkflowErrorRecord → RecoveredExecution

-- What a validated history recovers to.
unfoldable pub recovered : ExecutionId → Invocation → RecoveryHistory → RecoveredExecution
recovered id invocation (RecoveryHistory.completed output) =
    already_completed (record { id = id }) output
recovered id invocation (RecoveryHistory.failed error) = already_failed (record { id = id }) error
recovered id invocation (RecoveryHistory.running rest) =
    still_running (record { id = id }) (Cursor.from_history rest) invocation

-- The checks of `recover` on a loaded journal.
unfoldable pub recover_from :
    ExecutionId → WorkflowName → WorkflowVersion → Journal → Result RecoveredExecution EngineError
unfolding recovered
recover_from id name version events = do
  invocation ← Invocation.parse id events
  Invocation.select invocation name version
  validated ← map_err history (History.parse events)
  ok (recovered id invocation (History.into_recovery validated))

module _ {S : Type 0} (store : JournalStore S) where
  -- A handle that a failure drops gives up its stream.
  abbrev pub or_drop :
      {A : Type 0} → ExecutionId → Result A EngineError × S → Result A EngineError × S
  or_drop id (ok a, s) = (ok a, s)
  or_drop id (err e, s) = (err e, store.release id s)

  -- `Execution::new`
  unfoldable pub new : ExecutionId → S → Result (Execution created) EngineError × S
  new id s =
      let (r, s') = store.acquire id s in (map_err journal r >>= λ _. ok (record { id = id }), s')

  -- Appends an event and passes to the next state, or drops the handle.
  abbrev pub append_to :
      {state : Lifecycle} (next : Lifecycle)
      → Execution state
      → JournalEvent
      → S
      → Result (Execution next) EngineError × S
  append_to next e event s =
      let (r, s') = store.append e.id event s in
      or_drop e.id (map_err journal r >>= λ _. ok (record { id = e.id }), s')

  -- `start` once the journal is loaded.
  unfoldable pub start_loaded :
      Execution created
      → JournalEvent
      → Result Journal EngineError
      → S
      → Result (Execution running) EngineError × S
  start_loaded e event (err error) s = or_drop e.id (err error, s)
  start_loaded e event (ok events) s =
      if is_empty events
      then append_to running e event s
      else or_drop e.id (err (existing_execution e.id), s)

  unfoldable pub start :
      Execution created
      → WorkflowName
      → WorkflowVersion
      → EventPayload
      → S
      → Result (Execution running) EngineError × S
  unfolding start_loaded
  start e workflow version input s =
      let (r, s') = store.load e.id s in
      start_loaded e (execution_started workflow version input) (map_err journal r) s'

  -- `recover` once the stream is owned.
  unfoldable pub recover_owned :
      ExecutionId → WorkflowName → WorkflowVersion → S → Result RecoveredExecution EngineError × S
  unfolding recover_from
  recover_owned id name version s =
      let (r, s') = store.load id s in
      or_drop id (map_err journal r >>= recover_from id name version, s')

  unfoldable pub recover :
      ExecutionId → WorkflowName → WorkflowVersion → S → Result RecoveredExecution EngineError × S
  unfolding recover_owned
  recover id name version s =
      let (r, s') = store.acquire id s in
      elim r [ ok _ ↦ recover_owned id name version s' | err e ↦ (err (journal e), s') ]

  unfoldable pub complete :
      Execution running → EventPayload → S → Result (Execution completed) EngineError × S
  complete e output s = append_to completed e (execution_completed output) s

  unfoldable pub fail :
      Execution running → WorkflowErrorRecord → S → Result (Execution failed) EngineError × S
  fail e error s = append_to failed e (execution_failed error) s
