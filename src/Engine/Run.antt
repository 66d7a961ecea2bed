-- ===== src/Engine/Run.antt =====
-- `Engine::run`, `Engine::recover_and_run` and `Engine::finish` of src/engine.rs. They take the
-- states of the store and of the world and return them with the outcome; a handle that goes out of
-- scope releases its stream.
use yaoki.Prelude.{[], Result, ok, err, ◌>>◌}
use yaoki.Execution.{ExecutionId, WorkflowErrorRecord}
use yaoki.Journal.{EventPayload}
use yaoki.Journal.Store.{JournalStore}
use yaoki.Context.Cursor
use yaoki.Context.Cursor.{ReplayCursor}
use yaoki.Context.State.{
  WorkflowCtx, Environment, EngineError, ensure_healthy, ensure_replay_complete,
}
use yaoki.Context.State
use yaoki.Engine.Workflow.{Workflow, execute}
use yaoki.Engine.Lifecycle
use yaoki.Engine.Lifecycle.{
  Execution, running, RecoveredExecution, still_running, already_completed, already_failed,
}

pub data RunError (E : Type 0) : Type 0 where
  engine : EngineError → RunError E
  workflow : E → RunError E
  recovered : WorkflowErrorRecord → RunError E

-- The outcome of a run, and the states that it leaves.
abbrev pub Outcome : Type 0 → Type 0 → Type 0 → Type 0
Outcome S W E = Result EventPayload (RunError E) × S × W

module _ {S W E : Type 0} (store : JournalStore S) (env : Environment W) where
  -- Journals the terminal event of what the workflow returned. The handle is dropped at once.
  unfoldable pub conclude :
      Workflow W E
      → Execution running
      → Result EventPayload E
      → S
      → Result EventPayload (RunError E) × S
  conclude w e (ok output) s =
      let (r, s') = Lifecycle.complete store e output s in
      elim r [ ok done ↦ (ok output, store.release e.id s') | err error ↦ (err (engine error), s') ]
  conclude w e (err error) s =
      let (r, s') = Lifecycle.fail store e (record { message = w.debug error }) s in
      elim r [
        | ok done ↦ (err (workflow error), store.release e.id s')
        | err error' ↦ (err (engine error'), s')
      ]

  -- The checks of `finish` once the workflow has returned.
  unfoldable pub settle :
      Workflow W E → Execution running → Result EventPayload E → WorkflowCtx S W → Outcome S W E
  unfolding conclude
  settle w e result c = elim (ensure_healthy c >> ensure_replay_complete c) [
    | err error ↦ (err (engine error), store.release e.id c.store, c.world)
    | ok _ ↦ (let (r, s) = conclude w e result c.store in (r, s, c.world))
  ]

  unfoldable pub finish :
      Workflow W E → Execution running → WorkflowCtx S W → EventPayload → Outcome S W E
  unfolding settle
  finish w e c input = let (result, c') = execute store env (w.run input) c in settle w e result c'

  -- `run` once the stream is owned.
  unfoldable pub run_created :
      Workflow W E → EventPayload → Execution Lifecycle.created → S → W → Outcome S W E
  unfolding finish
  run_created w input e s world =
      let (r, s') = Lifecycle.start store e w.name w.version input s in
      elim r [
        | err error ↦ (err (engine error), s', world)
        | ok e' ↦ finish w e' (State.new s' world e.id (Cursor.new [])) input
      ]

  unfoldable pub run : ExecutionId → Workflow W E → EventPayload → S → W → Outcome S W E
  unfolding run_created
  run id w input s world =
      let (r, s') = Lifecycle.new store id s in
      elim r [ err error ↦ (err (engine error), s', world) | ok e ↦ run_created w input e s' world ]

  -- What a recovered execution goes on with.
  unfoldable pub resume : Workflow W E → RecoveredExecution → S → W → Outcome S W E
  unfolding finish
  resume w (already_completed e output) s world = (ok output, store.release e.id s, world)
  resume w (already_failed e error) s world = (err (recovered error), store.release e.id s, world)
  resume w (still_running e cursor invocation) s world =
      finish w e (State.new s world e.id cursor) invocation.input

  -- The match of `recover_and_run` on what `recover` returned.
  unfoldable pub resume_result :
      Workflow W E → Result RecoveredExecution EngineError × S → W → Outcome S W E
  unfolding resume
  resume_result w (err error, s) world = (err (engine error), s, world)
  resume_result w (ok found, s) world = resume w found s world

  unfoldable pub recover_and_run : ExecutionId → Workflow W E → S → W → Outcome S W E
  unfolding resume_result
  recover_and_run id w s world =
      resume_result w (Lifecycle.recover store id w.name w.version s) world
