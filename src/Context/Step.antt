-- ===== src/Context/Step.antt =====
-- `WorkflowCtx::step`, `resolve_step`, `replay_step_outcome` and `run_live` of src/context.rs. A step
-- body is a function of its idempotency key that may touch the world.
pub mod Attempts
pub mod Fuel
pub mod Replayed
pub mod Decision
pub mod Legality
use yaoki.Prelude.{
  ℕ, zero, suc, Option, none, some, Result, ok, err, length, if◌then◌else◌, ◌==◌, list_eq, nat_eq,
}
use yaoki.Seq.{Seq}
use yaoki.Step.{
  StepName, Attempt, AttemptOverflow, first_attempt, next_attempt, StepErrorRecord, IdempotencyKey,
}
use yaoki.Command.{CommandKind}
use yaoki.Journal.{
  EventPayload, JournalEvent, step_scheduled, step_started, step_completed, step_failed,
}
use yaoki.Journal.Store.{JournalStore}
use yaoki.Failpoints.{
  before_step_scheduled, after_step_scheduled, after_step_started, after_side_effect,
  after_step_completed,
}
use yaoki.Context.Cursor
use yaoki.Context.Cursor.{ReplayCursor}
use yaoki.Context.State.{
  WorkflowCtx, Environment, EngineError, attempt, StepError, failed, engine, Mode, replaying, live,
  ensure_healthy,
}
use yaoki.Context.Monad.{
  Action, pure, lift, ◌>>=◌, ◌>>◌, as_step, continue_with, retain_step_result, take_seq, decide,
  diverged, go_live, append, checkpoint,
}

-- `FnOnce(IdempotencyKey) -> Result<EventPayload, StepErrorRecord>`
abbrev pub StepBody : Type 0 → Type 0
StepBody W = IdempotencyKey → W → Result EventPayload StepErrorRecord × W

pub data LiveEntry : Type 0 where
  fresh : LiveEntry
  retry : Attempt → LiveEntry

pub data ReplayedStep : Type 0 where
  recorded : Result EventPayload StepError → ReplayedStep
  rerun : Attempt → ReplayedStep

pub data StepDecision : Type 0 where
  use_recorded : Result EventPayload StepError → StepDecision
  run_live : LiveEntry → StepDecision

-- The `while let` over the attempts at the cursor, with fuel. The number of events is enough, since
-- each round consumes one.
unfoldable pub skip_attempts :
    ℕ
    → ReplayCursor
    → Result Attempt AttemptOverflow
    → ReplayCursor × Result Attempt AttemptOverflow
skip_attempts zero cursor next = (cursor, next)
skip_attempts (suc fuel) cursor next = elim (Cursor.peek cursor) [
  | some (step_started seq number) ↦
      skip_attempts fuel (Cursor.advance cursor) (next_attempt number)
  | _ ↦ (cursor, next)
]

-- The outcome behind the attempts.
unfoldable pub match_outcome :
    Seq
    → ReplayCursor
    → Result Attempt AttemptOverflow
    → Option JournalEvent
    → ReplayedStep × ReplayCursor
match_outcome seq cursor (ok number) none = (rerun number, cursor)
match_outcome seq cursor (err error) none = (recorded (err (engine (attempt error))), cursor)
match_outcome seq cursor next (some (step_completed _ result)) =
    (recorded (ok result), Cursor.advance cursor)
match_outcome seq cursor next (some (step_failed _ _ error)) =
    (recorded (err (failed error)), Cursor.advance cursor)
match_outcome seq cursor next (some event) =
    (recorded (err (engine (diverged seq event CommandKind.run_step))), cursor)

unfoldable pub replay_step_outcome : ReplayCursor → Seq → ReplayedStep × ReplayCursor
unfolding skip_attempts match_outcome
replay_step_outcome cursor seq =
    let (cursor', next) = skip_attempts (length (Cursor.events cursor)) cursor (ok first_attempt) in
    match_outcome seq cursor' next (Cursor.peek cursor')

abbrev pub entry_of : ReplayedStep × ReplayCursor → StepDecision × Mode
entry_of (recorded result, cursor) = (use_recorded result, replaying cursor)
entry_of (rerun number, cursor) = (run_live (retry number), replaying cursor)

unfoldable pub match_step :
    Seq → StepName → ReplayCursor → Option JournalEvent → StepDecision × Mode
unfolding replay_step_outcome
match_step seq name cursor none = (run_live fresh, replaying cursor)
match_step seq name cursor (some (step_scheduled s journaled)) =
    if journaled == name then entry_of (replay_step_outcome (Cursor.advance cursor) seq) else (
      use_recorded (err (engine (diverged seq (step_scheduled s journaled) CommandKind.run_step))),
      replaying cursor,
    )
match_step seq name cursor (some event) =
    (use_recorded (err (engine (diverged seq event CommandKind.run_step))), replaying cursor)

unfoldable pub decide_step : Seq → StepName → Mode → StepDecision × Mode
unfolding match_step
decide_step seq name live = (run_live fresh, live)
decide_step seq name (replaying cursor) = match_step seq name cursor (Cursor.peek cursor)

module _ {S W : Type 0} (store : JournalStore S) (env : Environment W) where
  -- Schedules the step, unless an attempt that a crash cut short has done so.
  unfoldable pub enter : Seq → StepName → LiveEntry → Action S W Attempt EngineError
  enter seq name fresh = do
    checkpoint env (before_step_scheduled seq)
    append store (step_scheduled seq name)
    checkpoint env (after_step_scheduled seq)
    pure first_attempt
  enter seq name (retry number) = pure number

  -- `f(key)`
  unfoldable pub run_body :
      StepBody W → Seq → Action S W (Result EventPayload StepErrorRecord) EngineError
  run_body f seq c =
      let (r, w) = f (record { execution = c.execution; seq = seq }) c.world in
      (ok r, record c { world = w })

  -- Journals the outcome of the body.
  unfoldable pub record_outcome :
      Seq → Attempt → Result EventPayload StepErrorRecord → Action S W EventPayload StepError
  record_outcome seq number (ok result) = do
    as_step (checkpoint env (after_side_effect seq))
    as_step (append store (step_completed seq result))
    as_step (checkpoint env (after_step_completed seq))
    pure result
  record_outcome seq number (err error) = do
    as_step (append store (step_failed seq number error))
    lift (err (failed error))

  -- One attempt: started, run and journaled.
  unfoldable pub run_attempt : Seq → StepBody W → Attempt → Action S W EventPayload StepError
  unfolding run_body record_outcome
  run_attempt seq f number = do
    as_step (append store (step_started seq number))
    as_step (checkpoint env (after_step_started seq))
    outcome ← as_step (run_body f seq)
    record_outcome seq number outcome

  -- `run_live`
  unfoldable pub run_step_live :
      Seq → StepName → StepBody W → LiveEntry → Action S W EventPayload StepError
  unfolding enter run_attempt
  run_step_live seq name f entry = do
    number ← as_step (enter seq name entry)
    run_attempt seq f number

  unfoldable pub answer_step :
      Seq → StepName → StepBody W → StepDecision → Action S W EventPayload StepError
  unfolding run_step_live
  answer_step seq name f (use_recorded result) = lift result
  answer_step seq name f (run_live entry) = do as_step go_live; run_step_live seq name f entry

  unfoldable pub resolve_step : StepName → StepBody W → Action S W EventPayload StepError
  unfolding decide_step answer_step
  resolve_step name f = do
    seq ← as_step take_seq
    decision ← decide (decide_step seq name)
    answer_step seq name f decision

  unfoldable pub step : StepName → StepBody W → Action S W EventPayload StepError
  unfolding resolve_step
  step name f c = elim (ensure_healthy c) [
    | err error ↦ (err (engine error), c)
    | ok _ ↦ (let (r, c') = resolve_step name f c in retain_step_result r c')
  ]
