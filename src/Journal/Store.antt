-- ===== src/Journal/Store.antt =====
-- The trait `JournalStore` of src/journal.rs as an interface: the operations that the engine calls,
-- and the contract that its documentation states. `S` is the store's state, which the operations
-- thread; `release` is the drop of a lease.
use yaoki.Prelude.{
  [], ◌∷◌, ◌++◌, ◌≡◌, ◌≢◌, ◌⊎◌, inl, inr, Bool, true, false, Result, ok, err, length, list_eq,
  nat_eq,
}
use yaoki.Execution.{ExecutionId}
use yaoki.Text.{Text}
use yaoki.Seq.{EventOffset}
use yaoki.Journal.{JournalEvent, Journal, JournalError}
use yaoki.Journal.WellFormed.{IsWellFormed}
use yaoki.Journal.Extends.{Extends, Extends-same}

pub record JournalStore (S : Type 0) : Type 0 where
  pub acquire : ExecutionId → S → Result (Unit {0}) JournalError × S
  pub release : ExecutionId → S → S
  pub append : ExecutionId → JournalEvent → S → Result EventOffset JournalError × S
  pub load : ExecutionId → S → Result Journal JournalError × S

-- What an append may have done: a success has added the event at the offset that it reports; an
-- error does not prove that the event is absent.
abbrev pub Appended : Journal → JournalEvent → Result EventOffset JournalError → Journal → Type 0
Appended before event (ok offset) after = (offset ≡ length before) × (after ≡ before ++ event ∷ [])
Appended before event (err e) after = (after ≡ before) ⊎ (after ≡ before ++ event ∷ [])

-- What an acquisition has done: a success owns a stream that was free, a refusal changes nothing.
abbrev pub Acquired : Bool → Result (Unit {0}) JournalError → Bool → Type 0
Acquired before (ok _) after = (before ≡ false) × (after ≡ true)
Acquired before (err e) after = after ≡ before

-- Whether or not it reports an error, an append extends the journal.
pub Appended-Extends :
    (before after : Journal) (event : JournalEvent) (r : Result EventOffset JournalError)
    → Appended before event r after
    → Extends before after
Appended-Extends before after event (ok offset) (_, e) = (event ∷ [], e)
Appended-Extends before after event (err x) (inl e) = Extends-same e
Appended-Extends before after event (err x) (inr e) = (event ∷ [], e)

-- The contract: every state has a journal and an owner flag for each execution, and an operation on
-- one execution leaves those with other streams alone. An event is appended as it is when its names and
-- attempts are what their constructors accept.
pub record Contract {S : Type 0} (store : JournalStore S) : Type 0 where
  pub stream_of : ExecutionId → Text
  pub journal_of : S → ExecutionId → Journal
  pub owned : S → ExecutionId → Bool
  -- Executions with the same stream have the same owner.
  pub owned_stream :
      (id other : ExecutionId) (s : S) → stream_of other ≡ stream_of id → owned s other ≡ owned s id
  pub append_lem :
      (id : ExecutionId) (event : JournalEvent) (s : S)
      → IsWellFormed event
      → Appended
          (journal_of s id)
          event
          (store.append id event s).0
          (journal_of (store.append id event s).1 id)
  pub append_grows :
      (id : ExecutionId) (event : JournalEvent) (s : S)
      → Extends (journal_of s id) (journal_of (store.append id event s).1 id)
  pub append_other :
      (id other : ExecutionId) (event : JournalEvent) (s : S)
      → stream_of other ≢ stream_of id
      → journal_of (store.append id event s).1 other ≡ journal_of s other
  pub append_owned :
      (id other : ExecutionId) (event : JournalEvent) (s : S)
      → owned (store.append id event s).1 other ≡ owned s other
  pub load_lem :
      (id : ExecutionId) (s : S) (journal : Journal)
      → (store.load id s).0 ≡ ok journal
      → journal ≡ journal_of s id
  pub load_journal :
      (id other : ExecutionId) (s : S) → journal_of (store.load id s).1 other ≡ journal_of s other
  pub load_owned :
      (id other : ExecutionId) (s : S) → owned (store.load id s).1 other ≡ owned s other
  pub acquire_lem :
      (id : ExecutionId) (s : S)
      → Acquired (owned s id) (store.acquire id s).0 (owned (store.acquire id s).1 id)
  pub acquire_other :
      (id other : ExecutionId) (s : S)
      → stream_of other ≢ stream_of id
      → owned (store.acquire id s).1 other ≡ owned s other
  pub acquire_journal :
      (id other : ExecutionId) (s : S)
      → journal_of (store.acquire id s).1 other ≡ journal_of s other
  pub release_self : (id : ExecutionId) (s : S) → owned (store.release id s) id ≡ false
  pub release_other :
      (id other : ExecutionId) (s : S)
      → stream_of other ≢ stream_of id
      → owned (store.release id s) other ≡ owned s other
  pub release_journal :
      (id other : ExecutionId) (s : S) → journal_of (store.release id s) other ≡ journal_of s other
