-- ===== src/Engine/Entry.antt =====
-- How `run` and `recover_and_run` of src/engine.rs come to a context: what `start` and `recover`
-- leave, and that the context which they lead to stands before the first command.
use yaoki.Prelude.{ℕ, suc, [], ◌∷◌, ◌≡◌, refl, subst, false, ok, if◌then◌else◌, length, leb, arith}
use yaoki.Execution.{ExecutionId}
use yaoki.Seq
use yaoki.Seq.{Seq, EventOffset}
use yaoki.Journal.{JournalEvent, Journal, execution_started}
use yaoki.Journal.Extends.{Extends-same}
use yaoki.Journal.Store.{JournalStore, Contract}
use yaoki.History.{HistoryState, ready, ReplayHistory, scan}
use yaoki.History
use yaoki.Context.Cursor
use yaoki.Context.State.{WorkflowCtx, EngineError, Mode, live, replaying, existing_execution}
use yaoki.Context.State
use yaoki.Context.Legality.{Readable, ReadyIn}
use yaoki.Context.Commands.{Stands}
use yaoki.Context.Frame.{Frame}

-- Behind the start record, replay of a journal stands before the first command.
scan_first :
    (x : JournalEvent) (rest : Journal) {state : HistoryState}
    → scan (x ∷ rest) ≡ ok state
    → scan (x ∷ []) ≡ ok (ready Seq.zero)
unfolding scan History.walk
scan_first (execution_started w v p) rest h = refl
scan_first _ rest h = absurd (cc)

mode_of : Cursor.ReplayCursor → Mode
mode_of cursor = if Cursor.is_exhausted cursor then live else replaying cursor

longer : (n : ℕ) → leb (suc (suc n)) 1 ≡ false
longer n = ground arith

scan_nil : {state : HistoryState} → scan [] ≡ ok state → ⊥
unfolding scan
scan_nil h = cc

-- The mode in which a recovered context begins.
recovered_mode :
    (events : Journal)
    → Readable events
    → ReadyIn Seq.zero (mode_of (Cursor.from_history (record { journal = events }))) events
unfolding mode_of Cursor.is_exhausted Cursor.from_history
recovered_mode [] (state, h) = absurd (scan_nil h)
recovered_mode (x ∷ []) (state, h) = scan_first x [] h
recovered_mode (x ∷ y ∷ rest) (state, h) = rw (longer (length rest)) (record {
  done = x ∷ [];
  rest = y ∷ rest;
  whole = refl;
  stored = refl;
  place = refl;
  read = scan_first x (y ∷ rest) h;
  legal = (state, h);
})

module _ {S W : Type 0} {store : JournalStore S} (contract : Contract store) where
  -- A context that takes a stream over.
  pub Frame-new :
      (s : S) (world : W) (id : ExecutionId) (cursor : Cursor.ReplayCursor)
      → Frame contract s id (State.new s world id cursor)
  unfolding State.new
  Frame-new s world id cursor = record {
    identity = refl;
    others = λ j n. refl;
    own = Extends-same refl;
    owners = λ j. refl;
  }

  Stands-new :
      (s : S) (world : W) (id : ExecutionId) (cursor : Cursor.ReplayCursor)
      → ReadyIn Seq.zero (mode_of cursor) (contract.journal_of s id)
      → Stands contract (State.new s world id cursor)
  unfolding State.new mode_of
  Stands-new s world id cursor h = h

  -- A recovered context.
  pub recovered-Stands :
      (s : S) (world : W) (id : ExecutionId) (events : Journal)
      → events ≡ contract.journal_of s id
      → Readable events
      → Stands contract (State.new s world id (Cursor.from_history (record { journal = events })))
  recovered-Stands s world id events e h = Stands-new s world id _ (
      subst (ReadyIn Seq.zero (mode_of (Cursor.from_history (record { journal = events })))) e
        (recovered_mode events h))

  -- The context of a run that has just journaled its start.
  pub started-Stands :
      (s : S) (world : W) (id : ExecutionId)
      → scan (contract.journal_of s id) ≡ ok (ready Seq.zero)
      → Stands contract (State.new s world id (Cursor.new []))
  unfolding mode_of Cursor.new Cursor.is_exhausted
  started-Stands s world id h = Stands-new s world id (Cursor.new []) (begin h)
    where
      begin :
          scan (contract.journal_of s id) ≡ ok (ready Seq.zero)
          → ReadyIn Seq.zero (mode_of (Cursor.new [])) (contract.journal_of s id)
      begin h = h
