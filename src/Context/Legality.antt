-- ===== src/Context/Legality.antt =====
-- Where a context stands in the event grammar: `Legal` when its journal can be read, `At` when it is
-- live behind a state of the grammar, `Good` when the next command may be given. The lemmas say how
-- the calls of src/context.rs move between these.
use yaoki.Prelude.{List, ◌++◌, ◌≡◌, inl, inr, ◌∙◌, Result, ok, err, map_err, length}
use yaoki.Seq.{Seq, EventOffset}
use yaoki.Time.{Timestamp}
use yaoki.Journal.{JournalEvent, Journal, JournalError}
use yaoki.Journal.WellFormed.{IsWellFormed}
use yaoki.Journal.Store.{JournalStore, Contract, Appended}
use yaoki.History.{HistoryState, ready, advance, scan}
use yaoki.History.Walk.{scan-snoc}
use yaoki.Failpoints.{CrashPoint, FailpointDecision, continue, crash}
use yaoki.Context.Cursor
use yaoki.Context.Cursor.{ReplayCursor}
use yaoki.Context.State.{WorkflowCtx, Environment, journal, Mode, replaying, live}
use yaoki.Context.Monad.{append, checkpoint, decided, read_clock, draw, wait}
use yaoki.Context.Triple.{Triple, Holds}

-- The journal can be read to its end.
abbrev pub Readable : Journal → Type 0
Readable events = (state : HistoryState) × (scan events ≡ ok state)

-- What an append that the grammar allows leaves.
abbrev pub AppendsTo : HistoryState → Result EventOffset JournalError → Journal → Type 0
AppendsTo state (ok offset) after = scan after ≡ ok state
AppendsTo state (err e) after = Readable after

pub append_reads :
    (state state' : HistoryState) (event : JournalEvent) (before after : Journal)
    (r : Result EventOffset JournalError)
    → scan before ≡ ok state
    → ((offset : EventOffset) → advance state event offset ≡ ok state')
    → Appended before event r after
    → AppendsTo state' r after
append_reads state state' event before after (ok n) h a (_, e) =
    rw e (scan-snoc state event before h ∙ a (length before))
append_reads state state' event before after (err x) h a (inl e) = (state, rw e h)
append_reads state state' event before after (err x) h a (inr e) =
    (state', rw e (scan-snoc state event before h ∙ a (length before)))

-- A cursor that has consumed `done` and not `rest` of a journal that can be read.
pub record Synced (journal : Journal) (state : HistoryState) (cursor : ReplayCursor) : Type 0 where
  pub done : List JournalEvent
  pub rest : List JournalEvent
  pub whole : Cursor.events cursor ≡ done ++ rest
  pub stored : journal ≡ done ++ rest
  pub place : cursor.position ≡ length done
  pub read : scan done ≡ ok state
  pub legal : Readable journal

-- A mode stands in a journal between two commands, before position `n`.
abbrev pub ReadyIn : Seq → Mode → Journal → Type 0
ReadyIn n live es = scan es ≡ ok (ready n)
ReadyIn n (replaying cursor) es = Synced es (ready n) cursor

pub ReadyIn-Readable : (n : Seq) (mode : Mode) (es : Journal) → ReadyIn n mode es → Readable es
ReadyIn-Readable n live es h = (ready n, h)
ReadyIn-Readable n (replaying cursor) es h = h.legal

module _ {S W : Type 0} {store : JournalStore S} (contract : Contract store) where
  abbrev pub history : WorkflowCtx S W → Journal
  history c = contract.journal_of c.store c.execution

  abbrev pub Legal : WorkflowCtx S W → Type 0
  Legal c = Readable (history c)

  pub record At (state : HistoryState) (seq : Seq) (c : WorkflowCtx S W) : Type 0 where
    pub read : scan (history c) ≡ ok state
    pub next : c.seq ≡ seq
    pub is_live : c.mode ≡ live

  -- The next command may be given.
  abbrev pub Good : WorkflowCtx S W → Type 0
  Good c = ReadyIn c.seq c.mode (history c)

module _ {S W : Type 0} {store : JournalStore S} (contract : Contract store)
    (env : Environment W) where
  appended-At :
      (state : HistoryState) (seq : Seq) (r : Result EventOffset JournalError) (c : WorkflowCtx S W)
      → AppendsTo state r (history contract c)
      → c.seq ≡ seq
      → c.mode ≡ live
      → Holds (λ _. At contract state seq) (λ _. Legal contract) (map_err journal r) c
  appended-At state seq (ok n) c h e l = record { read = h; next = e; is_live = l }
  appended-At state seq (err x) c h e l = h

  -- An append that the grammar allows, or one after whose failure the journal can still be read.
  pub append-At :
      (state state' : HistoryState) (event : JournalEvent) (seq : Seq)
      → ((offset : EventOffset) → advance state event offset ≡ ok state')
      → IsWellFormed event
      → Triple
          (At contract state seq)
          (append {W = W} store event)
          (λ _. At contract state' seq)
          (λ _. Legal contract)
  unfolding append
  append-At state state' event seq a valid = record {
    at = λ c h.
        let (r, s) = store.append c.execution event c.store in
        appended-At state' seq r (record c { store = s })
          (append_reads state state' event (history contract c) (contract.journal_of s c.execution)
            r h.read a (contract.append_lem c.execution event c.store valid))
          h.next h.is_live;
  }

  decided-At :
      (state : HistoryState) (seq : Seq) (point : CrashPoint) (d : FailpointDecision)
      (c : WorkflowCtx S W)
      → At contract state seq c
      → Holds (λ _. At contract state seq) (λ _. Legal contract) (decided point d) c
  decided-At state seq point continue c h = h
  decided-At state seq point crash c h = (state, h.read)

  pub checkpoint-At :
      (state : HistoryState) (seq : Seq) (point : CrashPoint)
      → Triple
          (At contract state seq)
          (checkpoint {S = S} env point)
          (λ _. At contract state seq)
          (λ _. Legal contract)
  unfolding checkpoint
  checkpoint-At state seq point = record {
    at = λ c h.
        let (d, w) = env.at point c.world in
        decided-At state seq point d (record c { world = w })
          (record { read = h.read; next = h.next; is_live = h.is_live });
  }

  pub read_clock-At :
      (state : HistoryState) (seq : Seq)
      → Triple
          (At contract state seq)
          (read_clock {S = S} env)
          (λ _. At contract state seq)
          (λ _. Legal contract)
  unfolding read_clock
  read_clock-At state seq = record {
    at = λ c h. record { read = h.read; next = h.next; is_live = h.is_live };
  }

  pub draw-At :
      (state : HistoryState) (seq : Seq)
      → Triple
          (At contract state seq)
          (draw {S = S} env)
          (λ _. At contract state seq)
          (λ _. Legal contract)
  unfolding draw
  draw-At state seq = record {
    at = λ c h. record { read = h.read; next = h.next; is_live = h.is_live };
  }

  pub wait-At :
      (state : HistoryState) (seq : Seq) (deadline : Timestamp)
      → Triple
          (At contract state seq)
          (wait {S = S} env deadline)
          (λ _. At contract state seq)
          (λ _. Legal contract)
  unfolding wait
  wait-At state seq deadline = record {
    at = λ c h. record { read = h.read; next = h.next; is_live = h.is_live };
  }
