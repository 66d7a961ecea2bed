-- ===== src/Memory.antt =====
-- src/stores/memory.rs: the store in memory. The two maps are functions of the execution, and each
-- mutex is its poison flag: a lock call fails exactly while the flag is set.
pub mod Contract
pub mod Laws
use yaoki.Prelude.{
  List, [], ◌∷◌, ◌++◌, Bool, true, false, Option, none, some, Result, ok, err, length,
  if◌then◌else◌, ◌==◌, list_eq, nat_eq, get_or,
}
use yaoki.Execution.{ExecutionId}
use yaoki.Seq.{EventOffset}
use yaoki.Journal.{JournalEvent, Journal, JournalError, poisoned, execution_owned}
use yaoki.Journal.Store.{JournalStore}

pub record MemoryJournal : Type 0 where
  pub executions : ExecutionId → Option (List JournalEvent)
  pub owners : ExecutionId → Bool
  pub executions_poisoned : Bool
  pub owners_poisoned : Bool

-- A map with one entry changed.
unfoldable pub update {ℓ} : {A : Type ℓ} → (ExecutionId → A) → ExecutionId → A → ExecutionId → A
update f id a other = if other == id then a else f other

-- `MemoryJournal::new`
unfoldable pub new : MemoryJournal
new = record {
  executions = λ id. none;
  owners = λ id. false;
  executions_poisoned = false;
  owners_poisoned = false;
}

unfoldable pub acquire :
    ExecutionId → MemoryJournal → Result (Unit {0}) JournalError × MemoryJournal
unfolding update
acquire id m =
    if m.owners_poisoned
    then (err poisoned, m)
    else if m.owners id
    then (err (execution_owned id), m)
    else (ok tt, record m { owners = update m.owners id true })

-- `MemoryLease::drop`, which ignores the poison.
unfoldable pub release : ExecutionId → MemoryJournal → MemoryJournal
unfolding update
release id m = record m { owners = update m.owners id false }

unfoldable pub append :
    ExecutionId → JournalEvent → MemoryJournal → Result EventOffset JournalError × MemoryJournal
unfolding update
append id event m =
    let events = get_or (m.executions id) [] in
    if m.executions_poisoned then (err poisoned, m) else (
      ok (length events),
      record m { executions = update m.executions id (some (events ++ event ∷ [])) },
    )

unfoldable pub load : ExecutionId → MemoryJournal → Result Journal JournalError × MemoryJournal
load id m =
    if m.executions_poisoned then (err poisoned, m) else (ok (get_or (m.executions id) []), m)

abbrev pub memory : JournalStore MemoryJournal
memory = record { acquire = acquire; release = release; append = append; load = load }
