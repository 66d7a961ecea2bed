-- ===== src/Context/Replay.antt =====
-- Replay in the event grammar: what the cursor of src/context.rs shows in a journal that can be
-- read, and where a command stands once it has taken its position.
use yaoki.Prelude.{
  ℕ, suc, ◌+◌, ◌<◌, List, [], ◌∷◌, ◌++◌, ◌≡◌, inl, inr, refl, sym, ◌∙◌, ap, ok, none, some, length,
  length-append, get_elem?-append, append_assoc, append-nil, >>=-eq-ok, subst, ltb, Bool-cases,
  arith,
}
use yaoki.Seq
use yaoki.Seq.{Seq, u64_max}
use yaoki.Journal.{JournalEvent, Journal}
use yaoki.Journal.Store.{JournalStore, Contract}
use yaoki.History.{HistoryState, ready, advance, walk, scan}
use yaoki.History.Walk.{scan-append, scan-snoc}
use yaoki.Context.Cursor
use yaoki.Context.Cursor.{ReplayCursor}
use yaoki.Context.State.{WorkflowCtx}
use yaoki.Context.Monad.{take_seq, go_live}
use yaoki.Context.Triple.{Triple}
use yaoki.Context.Legality.{Readable, history, Legal, At, Synced, Good, ReadyIn, ReadyIn-Readable}

-- At an element that is there the cursor is not exhausted, and moves on by one.
advance_inside :
    (cursor : ReplayCursor) (done rest : List JournalEvent) (e : JournalEvent)
    → Cursor.events cursor ≡ done ++ e ∷ rest
    → cursor.position ≡ length done
    → Cursor.advance cursor ≡ record cursor { position = cursor.position + 1 }
unfolding Cursor.advance Cursor.is_exhausted
advance_inside cursor done rest e whole place =
    ground (arith, ap length whole, length-append done (e ∷ rest))

module _ (journal : Journal) where
  -- What the cursor shows: the end of the journal, or an event that the grammar allows and behind
  -- which the cursor stands in step again.
  pub data Shows (state : HistoryState) (cursor : ReplayCursor) : Type 0 where
    nothing : Cursor.peek cursor ≡ none → scan journal ≡ ok state → Shows state cursor
    event :
        (e : JournalEvent) (offset : ℕ) (next : HistoryState)
        → Cursor.peek cursor ≡ some e
        → advance state e offset ≡ ok next
        → Synced journal next (Cursor.advance cursor)
        → Shows state cursor

  Shows-rest :
      (state : HistoryState) (cursor : ReplayCursor) (done rest : List JournalEvent)
      → Cursor.events cursor ≡ done ++ rest
      → journal ≡ done ++ rest
      → cursor.position ≡ length done
      → scan done ≡ ok state
      → Readable journal
      → Shows state cursor
  unfolding Cursor.peek walk
  Shows-rest state cursor done [] whole stored place read legal =
      nothing (rw (whole, place) (get_elem?-append done [])) (rw (stored, append-nil) read)
  Shows-rest state cursor done (e ∷ rest) whole stored place read (end, legal) =
      let walked : walk (length done) state (e ∷ rest) ≡ ok end =
        sym (scan-append state done (e ∷ rest) read) ∙ (rw stored at legal) in
      let (next, allowed, _) =
        >>=-eq-ok (advance state e (length done)) (λ q. walk (suc (length done)) q rest) walked in
      event e (length done) next (rw (whole, place) (get_elem?-append done (e ∷ rest))) allowed (
        rw (advance_inside cursor done rest e whole place) (record {
          done = done ++ e ∷ [];
          rest = rest;
          whole = whole ∙ sym (append_assoc done (e ∷ []) rest);
          stored = stored ∙ sym (append_assoc done (e ∷ []) rest);
          place = omega (arith, place, length-append done (e ∷ []));
          read = scan-snoc state e done read ∙ allowed;
          legal = (end, legal);
        }))

  pub shows :
      {state : HistoryState} {cursor : ReplayCursor}
      → Synced journal state cursor
      → Shows state cursor
  shows {state} {cursor} s =
      Shows-rest state cursor s.done s.rest s.whole s.stored s.place s.read s.legal

module _ {S W : Type 0} {store : JournalStore S} (contract : Contract store) where
  -- A command has taken position `n`, and the journal still stands before it.
  pub record Taken (n : Seq) (c : WorkflowCtx S W) : Type 0 where
    pub room : n < u64_max
    pub next : c.seq ≡ n + 1
    pub ready_in : ReadyIn n c.mode (history contract c)

  -- A command has read all that the journal holds: it stands behind `state`.
  pub record Pending (state : HistoryState) (n : Seq) (c : WorkflowCtx S W) : Type 0 where
    pub room : n < u64_max
    pub next : c.seq ≡ n + 1
    pub read : scan (history contract c) ≡ ok state

  pub Good-Legal : (c : WorkflowCtx S W) → Good contract c → Legal contract c
  Good-Legal c h = ReadyIn-Readable c.seq c.mode (history contract c) h

  pub take_seq-Taken : Triple (Good contract) (take_seq {S = S} {W = W}) Taken (λ _. Legal contract)
  unfolding take_seq Seq.next
  take_seq-Taken = record {
    at = λ c h. elim (Bool-cases (ltb c.seq u64_max)) [
      | inl e ↦ rw (e, take_seq) (record { room = ground arith; next = refl; ready_in = h })
      | inr e ↦ rw (e, take_seq) (Good-Legal c h)
    ];
  }

  pub go_live-At :
      (state : HistoryState) (n : Seq)
      → Triple (Pending state n) go_live (λ _. At contract state (n + 1)) (λ _. Legal contract)
  unfolding go_live
  go_live-At state n = record {
    at = λ c h. record { read = h.read; next = h.next; is_live = refl };
  }

  -- A command that ends live has left the context ready for the next.
  pub At-Good :
      (n : Seq) (c : WorkflowCtx S W) → At contract (ready (n + 1)) (n + 1) c → Good contract c
  At-Good n c h =
      subst (λ mode. ReadyIn c.seq mode (history contract c)) (sym h.is_live)
        (h.read ∙ ap (λ k. ok (ready k)) (sym h.next))
