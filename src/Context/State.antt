-- ===== src/Context/State.antt =====
-- The context of src/context.rs and its errors. A context holds the state of the store and of the
-- outside world (clock, randomness, failpoint policy and what step bodies touch), which the source
-- reaches through references.
use yaoki.Prelude.{Result, ok, err, if◌then◌else◌}
use yaoki.Random.{RandomBytes}
use yaoki.Execution.{ExecutionId, WorkflowName, WorkflowVersion}
use yaoki.Seq
use yaoki.Seq.{Seq, SeqError}
use yaoki.Step.{AttemptOverflow, StepErrorRecord}
use yaoki.Time.{Timestamp}
use yaoki.Command.{CommandKind}
use yaoki.Journal.{JournalError}
use yaoki.History.{HistoryError}
use yaoki.Failpoints.{CrashPoint, FailpointDecision, CrashStatus, intact, crashed}
use yaoki.Context.Cursor
use yaoki.Context.Cursor.{ReplayCursor}

pub data EngineError : Type 0 where
  -- position, expected, got
  nondeterminism : Seq → CommandKind → CommandKind → EngineError
  unconsumed_history : EngineError
  -- recorded, current
  version_mismatch : WorkflowVersion → WorkflowVersion → EngineError
  workflow_mismatch : WorkflowName → WorkflowName → EngineError
  missing_execution : ExecutionId → EngineError
  existing_execution : ExecutionId → EngineError
  invalid_invocation : ExecutionId → EngineError
  sequence : SeqError → EngineError
  attempt : AttemptOverflow → EngineError
  history : HistoryError → EngineError
  journal : JournalError → EngineError
  injected_crash : CrashPoint → EngineError

-- `StepError` of src/step.rs.
pub data StepError : Type 0 where
  failed : StepErrorRecord → StepError
  engine : EngineError → StepError

pub data Mode : Type 0 where
  replaying : ReplayCursor → Mode
  live : Mode

pub data ExecutionHealth : Type 0 where
  healthy : ExecutionHealth
  faulted : EngineError → ExecutionHealth

-- What the engine is given from outside: the traits `Clock` (src/time.rs), `RngSource`
-- (src/random.rs) and `FailpointPolicy` (src/failpoints.rs), over the state of the world.
pub record Environment (W : Type 0) : Type 0 where
  pub now : W → Timestamp × W
  pub sleep_until : Timestamp → W → W
  pub next_bytes : W → RandomBytes × W
  pub at : CrashPoint → W → FailpointDecision × W

pub record WorkflowCtx (S W : Type 0) : Type 0 where
  pub store : S
  pub world : W
  pub execution : ExecutionId
  pub seq : Seq
  pub mode : Mode
  pub health : ExecutionHealth

module _ {S W : Type 0} where
  -- `WorkflowCtx::with_failpoints`
  unfoldable pub new : S → W → ExecutionId → ReplayCursor → WorkflowCtx S W
  new store world execution cursor = record {
    store = store;
    world = world;
    execution = execution;
    seq = Seq.zero;
    mode = if Cursor.is_exhausted cursor then live else replaying cursor;
    health = healthy;
  }

  unfoldable pub crash_status : WorkflowCtx S W → CrashStatus
  crash_status c = elim c.health [ faulted (injected_crash point) ↦ crashed point | _ ↦ intact ]

  -- Refuses terminal recording while replay still has unread events.
  unfoldable pub ensure_replay_complete : WorkflowCtx S W → Result (Unit {0}) EngineError
  ensure_replay_complete c = elim c.mode [
    | live ↦ ok tt
    | replaying cursor ↦ if Cursor.is_exhausted cursor then ok tt else err unconsumed_history
  ]

  unfoldable pub ensure_healthy : WorkflowCtx S W → Result (Unit {0}) EngineError
  ensure_healthy c = elim c.health [ healthy ↦ ok tt | faulted error ↦ err error ]
