-- ===== src/Codec.antt =====
-- `JournalEventRecord` of src/stores/file.rs: the mirror of an event that the file store writes, and
-- the conversions between the two. serde turns a record into JSON and back.
pub mod RoundTrip
use yaoki.Prelude.{ℕ, Result, ok, err, ◌>>=◌, map_err}
use yaoki.Text.{Text, Bytes}
use yaoki.Execution.{WorkflowNameError, WorkflowVersionError, workflow_name, workflow_version}
use yaoki.Step.{StepNameError, AttemptError, step_name, attempt_number}
use yaoki.Journal.{JournalEvent, JournalError, codec}

pub data JournalEventRecord : Type 0 where
  execution_started : Text → Text → Bytes → JournalEventRecord
  step_scheduled : ℕ → Text → JournalEventRecord
  step_started : ℕ → ℕ → JournalEventRecord
  step_completed : ℕ → Bytes → JournalEventRecord
  step_failed : ℕ → ℕ → Text → JournalEventRecord
  now_recorded : ℕ → ℕ → JournalEventRecord
  random_recorded : ℕ → Bytes → JournalEventRecord
  timer_scheduled : ℕ → ℕ → JournalEventRecord
  timer_fired : ℕ → JournalEventRecord
  execution_completed : Bytes → JournalEventRecord
  execution_failed : Text → JournalEventRecord

-- `From<&JournalEvent>`
unfoldable pub to_record : JournalEvent → JournalEventRecord
to_record (JournalEvent.execution_started workflow version input) =
    JournalEventRecord.execution_started workflow version input
to_record (JournalEvent.step_scheduled seq name) = JournalEventRecord.step_scheduled seq name
to_record (JournalEvent.step_started seq attempt) = JournalEventRecord.step_started seq attempt
to_record (JournalEvent.step_completed seq result) = JournalEventRecord.step_completed seq result
to_record (JournalEvent.step_failed seq attempt error) =
    JournalEventRecord.step_failed seq attempt error.message
to_record (JournalEvent.now_recorded seq value) = JournalEventRecord.now_recorded seq value
to_record (JournalEvent.random_recorded seq value) = JournalEventRecord.random_recorded seq value
to_record (JournalEvent.timer_scheduled seq deadline) =
    JournalEventRecord.timer_scheduled seq deadline.timestamp
to_record (JournalEvent.timer_fired seq) = JournalEventRecord.timer_fired seq
to_record (JournalEvent.execution_completed output) = JournalEventRecord.execution_completed output
to_record (JournalEvent.execution_failed error) = JournalEventRecord.execution_failed error.message

-- The `Display` texts of the errors, which thiserror derives.
pub record Messages : Type 0 where
  pub of_name : WorkflowNameError → Text
  pub of_version : WorkflowVersionError → Text
  pub of_step : StepNameError → Text
  pub of_attempt : AttemptError → Text

abbrev pub malformed : {A E : Type 0} → (E → Text) → Result A E → Result A JournalError
malformed text = map_err (λ e. codec (text e))

module _ (messages : Messages) where
  -- `TryFrom<JournalEventRecord>`
  unfoldable pub from_record : JournalEventRecord → Result JournalEvent JournalError
  from_record (JournalEventRecord.execution_started workflow version input) = do
    name ← malformed messages.of_name (workflow_name workflow)
    current ← malformed messages.of_version (workflow_version version)
    ok (JournalEvent.execution_started name current input)
  from_record (JournalEventRecord.step_scheduled seq name) = do
    checked ← malformed messages.of_step (step_name name)
    ok (JournalEvent.step_scheduled seq checked)
  from_record (JournalEventRecord.step_started seq attempt) = do
    number ← malformed messages.of_attempt (attempt_number attempt)
    ok (JournalEvent.step_started seq number)
  from_record (JournalEventRecord.step_completed seq result) =
      ok (JournalEvent.step_completed seq result)
  from_record (JournalEventRecord.step_failed seq attempt error) = do
    number ← malformed messages.of_attempt (attempt_number attempt)
    ok (JournalEvent.step_failed seq number (record { message = error }))
  from_record (JournalEventRecord.now_recorded seq value) = ok (JournalEvent.now_recorded seq value)
  from_record (JournalEventRecord.random_recorded seq value) =
      ok (JournalEvent.random_recorded seq value)
  from_record (JournalEventRecord.timer_scheduled seq deadline) =
      ok (JournalEvent.timer_scheduled seq (record { timestamp = deadline }))
  from_record (JournalEventRecord.timer_fired seq) = ok (JournalEvent.timer_fired seq)
  from_record (JournalEventRecord.execution_completed output) =
      ok (JournalEvent.execution_completed output)
  from_record (JournalEventRecord.execution_failed error) =
      ok (JournalEvent.execution_failed (record { message = error }))
