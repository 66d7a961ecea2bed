-- ===== src/Memory/Contract.antt =====
-- The store of src/stores/memory.rs keeps the contract of a store.
use yaoki.Prelude.{
  [], ◌≡◌, ◌≢◌, refl, Bool, false, ok, list_eq, nat_eq, get_or, arith, ap, eq_of_beq, beq_refl,
}
use yaoki.Execution.{ExecutionId}
use yaoki.Journal.{JournalEvent, Journal}
use yaoki.Journal.Store.{Contract, Appended, Appended-Extends, Acquired}
use yaoki.Memory.{MemoryJournal, acquire, release, append, load, memory}

abbrev pub journal_of : MemoryJournal → ExecutionId → Journal
journal_of m id = get_or (m.executions id) []

abbrev pub owned : MemoryJournal → ExecutionId → Bool
owned m id = m.owners id

pub append_self :
    (id : ExecutionId) (event : JournalEvent) (m : MemoryJournal)
    → Appended (journal_of m id) event (append id event m).0 (journal_of (append id event m).1 id)
unfolding append
append_self id event m = ground (arith, beq_refl id)

pub append_other :
    (id other : ExecutionId) (event : JournalEvent) (m : MemoryJournal)
    → other ≢ id
    → journal_of (append id event m).1 other ≡ journal_of m other
unfolding append
append_other id other event m h = ground (arith, eq_of_beq other id)

pub append_owned :
    (id other : ExecutionId) (event : JournalEvent) (m : MemoryJournal)
    → owned (append id event m).1 other ≡ owned m other
unfolding append
append_owned id other event m = ground arith

pub load_self :
    (id : ExecutionId) (m : MemoryJournal) (journal : Journal)
    → (load id m).0 ≡ ok journal
    → journal ≡ journal_of m id
unfolding load
load_self id m journal h = ground arith

pub load_same : (id : ExecutionId) (m : MemoryJournal) → (load id m).1 ≡ m
unfolding load
load_same id m = ground arith

pub acquire_self :
    (id : ExecutionId) (m : MemoryJournal)
    → Acquired (owned m id) (acquire id m).0 (owned (acquire id m).1 id)
unfolding acquire
acquire_self id m = ground (arith, beq_refl id)

pub acquire_other :
    (id other : ExecutionId) (m : MemoryJournal)
    → other ≢ id
    → owned (acquire id m).1 other ≡ owned m other
unfolding acquire
acquire_other id other m h = ground (arith, eq_of_beq other id)

pub acquire_journal :
    (id other : ExecutionId) (m : MemoryJournal)
    → journal_of (acquire id m).1 other ≡ journal_of m other
unfolding acquire
acquire_journal id other m = ground arith

pub release_self : (id : ExecutionId) (m : MemoryJournal) → owned (release id m) id ≡ false
unfolding release
release_self id m = ground (arith, beq_refl id)

pub release_other :
    (id other : ExecutionId) (m : MemoryJournal)
    → other ≢ id
    → owned (release id m) other ≡ owned m other
unfolding release
release_other id other m h = ground (arith, eq_of_beq other id)

pub release_journal :
    (id other : ExecutionId) (m : MemoryJournal)
    → journal_of (release id m) other ≡ journal_of m other
unfolding release
release_journal id other m = refl

abbrev pub memory_contract : Contract memory
memory_contract = record {
  stream_of = λ id. id;
  journal_of = journal_of;
  owned = owned;
  owned_stream = λ id other m e. ap (owned m) e;
  append_lem = λ id event m _. append_self id event m;
  append_grows =
      λ id event m. Appended-Extends _ _ event (append id event m).0 (append_self id event m);
  append_other = append_other;
  append_owned = append_owned;
  load_lem = load_self;
  load_journal = λ id other m. ap (λ s. journal_of s other) (load_same id m);
  load_owned = λ id other m. ap (λ s. owned s other) (load_same id m);
  acquire_lem = acquire_self;
  acquire_other = acquire_other;
  acquire_journal = acquire_journal;
  release_self = release_self;
  release_other = release_other;
  release_journal = release_journal;
}
