-- ===== src/Journal.antt =====
-- src/journal.rs: the events of an execution, its journal in append order, the failures of a store
-- and, in the module below, the interface of a store. `Seq` and `EventOffset` are in Seq.antt.
pub mod WellFormed
pub mod Extends
pub mod Store
use yaoki.Prelude.{List, [], Option, none, some}
use yaoki.Text.{Text, Bytes}
use yaoki.Random.{RandomBytes}
use yaoki.Execution.{ExecutionId, WorkflowName, WorkflowVersion, WorkflowErrorRecord}
use yaoki.Seq.{Seq}
use yaoki.Step.{StepName, Attempt, StepErrorRecord}
use yaoki.Time.{Timestamp, Deadline}
use yaoki.Command.{CommandKind}

-- Opaque serialized payload.
abbrev pub EventPayload : Type 0
EventPayload = Bytes

pub data JournalEvent : Type 0 where
  execution_started : WorkflowName → WorkflowVersion → EventPayload → JournalEvent
  step_scheduled : Seq → StepName → JournalEvent
  step_started : Seq → Attempt → JournalEvent
  step_completed : Seq → EventPayload → JournalEvent
  step_failed : Seq → Attempt → StepErrorRecord → JournalEvent
  now_recorded : Seq → Timestamp → JournalEvent
  random_recorded : Seq → RandomBytes → JournalEvent
  timer_scheduled : Seq → Deadline → JournalEvent
  timer_fired : Seq → JournalEvent
  execution_completed : EventPayload → JournalEvent
  execution_failed : WorkflowErrorRecord → JournalEvent

unfoldable pub command_kind : JournalEvent → Option CommandKind
command_kind (step_scheduled seq name) = some CommandKind.run_step
command_kind (now_recorded seq value) = some CommandKind.read_now
command_kind (random_recorded seq value) = some CommandKind.draw_random
command_kind (timer_scheduled seq deadline) = some CommandKind.sleep
command_kind (execution_started workflow version input) = none
command_kind (step_started seq attempt) = none
command_kind (step_completed seq result) = none
command_kind (step_failed seq attempt error) = none
command_kind (timer_fired seq) = none
command_kind (execution_completed output) = none
command_kind (execution_failed error) = none

-- One execution's full event history, in append order.
abbrev pub Journal : Type 0
Journal = List JournalEvent

pub data JournalError : Type 0 where
  execution_owned : ExecutionId → JournalError
  poisoned : JournalError
  io : Text → JournalError
  codec : Text → JournalError
