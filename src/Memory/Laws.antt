-- ===== src/Memory/Laws.antt =====
-- How the operations of src/stores/memory.rs meet: what a load gives after an append, and how often a
-- stream can be acquired.
use yaoki.Prelude.{
  [], ◌∷◌, ◌++◌, ◌≡◌, false, ok, err, if◌then◌else◌, ◌==◌, list_eq, nat_eq, beq_refl, eq_of_beq,
  arith,
}
use yaoki.Execution.{ExecutionId}
use yaoki.Journal.{JournalEvent, execution_owned}
use yaoki.Memory.{MemoryJournal, acquire, release, append, load}
use yaoki.Memory.Contract.{journal_of}

-- While the lock of the journals is not poisoned, a load after an append gives the journal with the
-- event at its end for the execution appended to, and what it gave before for each other one.
pub load-append :
    (id other : ExecutionId) (event : JournalEvent) (m : MemoryJournal)
    → m.executions_poisoned ≡ false
    → (load other (append id event m).1).0
      ≡ (if other == id then ok (journal_of m id ++ event ∷ []) else (load other m).0)
unfolding load append
load-append id other event m h = ground (arith, eq_of_beq other id)

-- A stream that was acquired is refused to a second acquisition, and can be acquired again once it
-- is released.
pub acquire-acquire :
    (id : ExecutionId) (m : MemoryJournal)
    → (acquire id m).0 ≡ ok tt
    → ((acquire id (acquire id m).1).0 ≡ err (execution_owned id))
      × ((acquire id (release id (acquire id m).1)).0 ≡ ok tt)
unfolding acquire release
acquire-acquire id m h = ground (arith, beq_refl id)
