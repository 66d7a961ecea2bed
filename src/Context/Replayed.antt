-- ===== src/Context/Replayed.antt =====
-- Contexts of src/context.rs that are live and that replay, and what a live command has left for a replay.
use yaoki.Prelude.{[], ◌∷◌, ◌≡◌, ◌∙◌, ap, subst, ok, length, drop, drop-append}
use yaoki.Execution.{ExecutionId}
use yaoki.Seq.{Seq, EventOffset}
use yaoki.Journal.{JournalEvent}
use yaoki.Journal.WellFormed.{IsWellFormed}
use yaoki.Journal.Store.{JournalStore, Contract, Appended}
use yaoki.Context.Cursor.{ReplayCursor}
use yaoki.Context.State.{WorkflowCtx, replaying, live, healthy}

module _ {S W : Type 0} (s : S) (w : W) (id : ExecutionId) (seq : Seq) where
  -- A healthy context that is live, and one that replays.
  abbrev pub live_ctx : WorkflowCtx S W
  live_ctx = record {
    store = s;
    world = w;
    execution = id;
    seq = seq;
    mode = live;
    health = healthy;
  }

  abbrev pub replay_ctx : ReplayCursor → WorkflowCtx S W
  replay_ctx cursor = record live_ctx { mode = replaying cursor }

-- What is new in the journal behind an append that has succeeded.
pub new_event :
    {S : Type 0} {store : JournalStore S} (contract : Contract store) (id : ExecutionId)
    (event : JournalEvent) (s after : S) (offset : EventOffset)
    → IsWellFormed event
    → (store.append id event s).0 ≡ ok offset
    → after ≡ (store.append id event s).1
    → drop (length (contract.journal_of s id)) (contract.journal_of after id) ≡ event ∷ []
new_event {store = store} contract id event s after offset valid done left =
    let (_, grown) =
      subst
        (λ r.
          Appended (contract.journal_of s id) event r
            (contract.journal_of (store.append id event s).1 id))
        done (contract.append_lem id event s valid) in
    ap (λ t. drop (length (contract.journal_of s id)) (contract.journal_of t id)) left
    ∙ ap (drop (length (contract.journal_of s id))) grown
    ∙ drop-append (contract.journal_of s id) (event ∷ [])
