-- ===== src/Journal/WellFormed.antt =====
-- The events of src/journal.rs that Rust's private fields allow.
use yaoki.Prelude.{◌≡◌, ok}
use yaoki.Execution.{workflow_name, workflow_version}
use yaoki.Step.{step_name, attempt_number}
use yaoki.Journal.{JournalEvent}

-- Names and attempts are what their constructors accept, as Rust's private fields ensure.
abbrev pub IsWellFormed : JournalEvent → Type 0
IsWellFormed (JournalEvent.execution_started workflow version input) =
    (workflow_name workflow ≡ ok workflow) × (workflow_version version ≡ ok version)
IsWellFormed (JournalEvent.step_scheduled seq name) = step_name name ≡ ok name
IsWellFormed (JournalEvent.step_started seq attempt) = attempt_number attempt ≡ ok attempt
IsWellFormed (JournalEvent.step_failed seq attempt error) = attempt_number attempt ≡ ok attempt
IsWellFormed _ = Unit
