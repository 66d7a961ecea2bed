-- ===== src/Engine/Streams.antt =====
-- How the calls of src/engine.rs to a store change its streams, from the contract of a store.
use yaoki.Prelude.{[], ◌≡◌, ◌≢◌, ◌⊎◌, refl, ◌∙◌, false}
use yaoki.Execution.{ExecutionId}
use yaoki.Journal.{JournalEvent, Journal}
use yaoki.Journal.Store.{JournalStore, Contract}
use yaoki.Journal.Extends.{Extends, Extends-same, Extends-trans}
use yaoki.Context.Legality.{Readable}

-- Of each execution, nothing is recorded or what is recorded can be read.
abbrev pub EmptyOrReadable : Journal → Type 0
EmptyOrReadable journal = (journal ≡ []) ⊎ Readable journal

module _ {S : Type 0} {store : JournalStore S} (contract : Contract store) where
  -- From `s` to `s'` only the stream `id` has changed, whose journal has at most grown.
  pub record Moves (id : ExecutionId) (s s' : S) : Type 0 where
    pub journals :
        (other : ExecutionId)
        → contract.stream_of other ≢ contract.stream_of id
        → contract.journal_of s' other ≡ contract.journal_of s other
    pub owners :
        (other : ExecutionId)
        → contract.stream_of other ≢ contract.stream_of id
        → contract.owned s' other ≡ contract.owned s other
    pub grows : Extends (contract.journal_of s id) (contract.journal_of s' id)

  pub Moves-refl : (id : ExecutionId) (s : S) → Moves id s s
  Moves-refl id s = record {
    journals = λ j n. refl;
    owners = λ j n. refl;
    grows = Extends-same refl;
  }

  pub Moves-trans : {id : ExecutionId} {s t u : S} → Moves id s t → Moves id t u → Moves id s u
  Moves-trans a b = record {
    journals = λ j n. b.journals j n ∙ a.journals j n;
    owners = λ j n. b.owners j n ∙ a.owners j n;
    grows = Extends-trans _ _ _ a.grows b.grows;
  }

  pub append-Moves :
      (id : ExecutionId) (event : JournalEvent) (s : S) → Moves id s (store.append id event s).1
  append-Moves id event s = record {
    journals = λ j n. contract.append_other id j event s n;
    owners = λ j n. contract.append_owned id j event s;
    grows = contract.append_grows id event s;
  }

  pub load-Moves : (id : ExecutionId) (s : S) → Moves id s (store.load id s).1
  load-Moves id s = record {
    journals = λ j n. contract.load_journal id j s;
    owners = λ j n. contract.load_owned id j s;
    grows = Extends-same (contract.load_journal id id s);
  }

  pub acquire-Moves : (id : ExecutionId) (s : S) → Moves id s (store.acquire id s).1
  acquire-Moves id s = record {
    journals = λ j n. contract.acquire_journal id j s;
    owners = λ j n. contract.acquire_other id j s n;
    grows = Extends-same (contract.acquire_journal id id s);
  }

  pub release-Moves : (id : ExecutionId) (s : S) → Moves id s (store.release id s)
  release-Moves id s = record {
    journals = λ j n. contract.release_journal id j s;
    owners = λ j n. contract.release_other id j s n;
    grows = Extends-same (contract.release_journal id id s);
  }

  -- The stream `id` has been given up, and its journal is readable if there is one.
  pub record Closed (id : ExecutionId) (s s' : S) : Type 0 where
    pub moves : Moves id s s'
    pub free : contract.owned s' id ≡ false
    pub readable : EmptyOrReadable (contract.journal_of s' id)

  pub release-Closed :
      (id : ExecutionId) (s s' : S)
      → Moves id s s'
      → EmptyOrReadable (contract.journal_of s' id)
      → Closed id s (store.release id s')
  release-Closed id s s' m r = record {
    moves = Moves-trans m (release-Moves id s');
    free = contract.release_self id s';
    readable = rw (contract.release_journal id id s') r;
  }

  pub Closed-after : {id : ExecutionId} {s t u : S} → Moves id s t → Closed id t u → Closed id s u
  Closed-after m c = record { moves = Moves-trans m c.moves; free = c.free; readable = c.readable }
