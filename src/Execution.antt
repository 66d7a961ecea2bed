-- ===== src/Execution.antt =====
-- src/execution.rs: identity and naming of an execution. `ExecutionId::generate` takes the draw that
-- `rng.next_bytes()` returned; the names are trimmed text that is not empty.
use yaoki.Prelude.{if◌then◌else◌, Result, ok, err, take, list_eq, nat_eq}
use yaoki.Text.{Text, Bytes, trim, is_empty}
use yaoki.Random.{RandomBytes}

-- `[u8; 16]`
abbrev pub ExecutionId : Type 0
ExecutionId = Bytes

-- The first sixteen bytes of the draw.
unfoldable pub generate : RandomBytes → ExecutionId
generate drawn = take 16 drawn

abbrev pub WorkflowName : Type 0
WorkflowName = Text

abbrev pub WorkflowVersion : Type 0
WorkflowVersion = Text

pub data WorkflowNameError : Type 0 where
  empty : WorkflowNameError

pub data WorkflowVersionError : Type 0 where
  empty : WorkflowVersionError

unfoldable pub workflow_name : Text → Result WorkflowName WorkflowNameError
workflow_name raw =
    let trimmed = trim raw in if is_empty trimmed then err WorkflowNameError.empty else ok trimmed

unfoldable pub workflow_version : Text → Result WorkflowVersion WorkflowVersionError
workflow_version raw =
    let trimmed = trim raw in
    if is_empty trimmed then err WorkflowVersionError.empty else ok trimmed

pub record WorkflowErrorRecord : Type 0 where
  pub message : Text
