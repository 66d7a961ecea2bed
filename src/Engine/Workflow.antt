-- ===== src/Engine/Workflow.antt =====
-- The trait `Workflow` of src/engine.rs. A workflow is pure but for the effects that it requests, so
-- its `run` is the tree of its requests: each names what it does with every result, errors of the
-- engine included. A tree has no infinite branch, so the workflows here are those that return.
use yaoki.Prelude.{◌≡◌, Result, ok}
use yaoki.Text.{Text}
use yaoki.Random.{RandomBytes}
use yaoki.Execution.{WorkflowName, WorkflowVersion, workflow_name, workflow_version}
use yaoki.Step.{StepName, step_name}
use yaoki.Time.{Timestamp, Deadline}
use yaoki.Journal.{EventPayload}
use yaoki.Journal.Store.{JournalStore}
use yaoki.Context.State.{WorkflowCtx, Environment, EngineError, StepError}
use yaoki.Context.Step.{StepBody}
use yaoki.Context.Step
use yaoki.Context.Now
use yaoki.Context.Random
use yaoki.Context.Sleep

pub data Program (W E : Type 0) : Type 0 where
  finish : Result EventPayload E → Program W E
  step :
      (name : StepName)
      → step_name name ≡ ok name
      → StepBody W
      → (Result EventPayload StepError → Program W E)
      → Program W E
  now : (Result Timestamp EngineError → Program W E) → Program W E
  random : (Result RandomBytes EngineError → Program W E) → Program W E
  sleep_until : Deadline → (Result (Unit {0}) EngineError → Program W E) → Program W E

-- Names are what their constructors accept. `debug` is the `Debug` format of the error type.
pub record Workflow (W E : Type 0) : Type 0 where
  pub name : WorkflowName
  pub version : WorkflowVersion
  pub name_ok : workflow_name name ≡ ok name
  pub version_ok : workflow_version version ≡ ok version
  pub run : EventPayload → Program W E
  pub debug : E → Text

module _ {S W E : Type 0} (store : JournalStore S) (env : Environment W) where
  -- Runs a program against a context.
  unfoldable pub execute : Program W E → WorkflowCtx S W → Result EventPayload E × WorkflowCtx S W
  execute (finish result) c = (result, c)
  execute (step name valid f k) c = let (r, c') = Step.step store env name f c in execute (k r) c'
  execute (now k) c = let (r, c') = Now.now store env c in execute (k r) c'
  execute (random k) c = let (r, c') = Random.random store env c in execute (k r) c'
  execute (sleep_until deadline k) c =
      let (r, c') = Sleep.sleep_until store env deadline c in execute (k r) c'
