-- ===== src/Engine/Invocation.antt =====
-- `Invocation` of src/engine.rs: the start record of a journal, read and compared.
use yaoki.Prelude.{
  List, [], ◌∷◌, Bool, true, false, ◌||◌, not, Option, none, some, Result, ok, err, ◌>>=◌, head?,
  tail, if◌then◌else◌, ◌==◌, list_eq, nat_eq,
}
use yaoki.Execution.{ExecutionId, WorkflowName, WorkflowVersion}
use yaoki.Journal.{JournalEvent, Journal, EventPayload, execution_started}
use yaoki.Context.State.{
  EngineError, missing_execution, invalid_invocation, workflow_mismatch, version_mismatch,
}

pub record Invocation : Type 0 where
  pub id : ExecutionId
  pub workflow : WorkflowName
  pub version : WorkflowVersion
  pub input : EventPayload

unfoldable pub is_execution_start : JournalEvent → Bool
is_execution_start (execution_started workflow version input) = true
is_execution_start _ = false

unfoldable pub any_start : List JournalEvent → Bool
unfolding is_execution_start
any_start [] = false
any_start (event ∷ events) = is_execution_start event || any_start events

unfoldable pub read_start : ExecutionId → Option JournalEvent → Result Invocation EngineError
read_start id none = err (missing_execution id)
read_start id (some (execution_started workflow version input)) =
    ok (record { id = id; workflow = workflow; version = version; input = input })
read_start id (some _) = err (invalid_invocation id)

unfoldable pub parse : ExecutionId → Journal → Result Invocation EngineError
unfolding any_start read_start
parse id journal = do
  invocation ← read_start id (head? journal)
  if any_start (tail journal) then err (invalid_invocation id) else ok invocation

unfoldable pub select : Invocation → WorkflowName → WorkflowVersion → Result (Unit {0}) EngineError
select invocation name version =
    if not (invocation.workflow == name)
    then err (workflow_mismatch invocation.workflow name)
    else if not (invocation.version == version)
    then err (version_mismatch invocation.version version)
    else ok tt
