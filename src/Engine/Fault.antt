-- ===== src/Engine/Fault.antt =====
-- The first fault of a context in src/context.rs, and the programs of src/engine.rs that meet it.
use yaoki.Prelude.{◌≡◌, refl, Result, err}
use yaoki.Journal.{EventPayload}
use yaoki.Journal.Store.{JournalStore}
use yaoki.Context.State.{WorkflowCtx, Environment, EngineError, StepError, faulted, ensure_healthy}
use yaoki.Context.State
use yaoki.Context.Commands.{now-faulted, random-faulted, sleep_until-faulted, step-faulted}
use yaoki.Engine.Workflow.{Program, Workflow, execute}
use yaoki.Engine.Workflow

module _ {S W E : Type 0} (store : JournalStore S) (env : Environment W) where
  -- What a program does with the retained fault: every command that it gives returns it.
  pub refused : EngineError → Program W E → Result EventPayload E
  refused error (Workflow.finish result) = result
  refused error (Workflow.step name valid f k) = refused error (k (err (State.engine error)))
  refused error (Workflow.now k) = refused error (k (err error))
  refused error (Workflow.random k) = refused error (k (err error))
  refused error (Workflow.sleep_until deadline k) = refused error (k (err error))

  -- In a faulted context every command of a program returns the retained fault, and the whole
  -- program changes nothing: no position is taken, and the store, the world and the mode stay as
  -- they are.
  pub execute-faulted :
      (c : WorkflowCtx S W) (error : EngineError) (program : Program W E)
      → c.health ≡ faulted error
      → execute store env program c ≡ (refused error program, c)
  unfolding execute refused
  execute-faulted c error (Workflow.finish result) e = refl
  execute-faulted c error (Workflow.step name valid f k) e =
      rw (step-faulted store env c e name f)
        (execute-faulted c error (k (err (State.engine error))) e)
  execute-faulted c error (Workflow.now k) e =
      rw (now-faulted store env c e) (execute-faulted c error (k (err error)) e)
  execute-faulted c error (Workflow.random k) e =
      rw (random-faulted store env c e) (execute-faulted c error (k (err error)) e)
  execute-faulted c error (Workflow.sleep_until deadline k) e =
      rw (sleep_until-faulted store env c e deadline) (execute-faulted c error (k (err error)) e)
