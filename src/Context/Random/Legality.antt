-- ===== src/Context/Random/Legality.antt =====
-- `random` of src/context.rs keeps the event grammar.
use yaoki.Prelude.{◌+◌, ◌≡◌, sym, ◌∙◌, ap, some, ok, err, subst}
use yaoki.Seq.{Seq}
use yaoki.Random.{RandomBytes}
use yaoki.Journal.{JournalEvent, random_recorded}
use yaoki.Journal.Store.{JournalStore, Contract}
use yaoki.History.{HistoryState, ready, advance}
use yaoki.History.Advance.{advance-random, random_inv}
use yaoki.Context.Cursor
use yaoki.Context.Cursor.{ReplayCursor}
use yaoki.Context.State.{WorkflowCtx, Environment, EngineError, Mode, replaying, live}
use yaoki.Context.Monad.{take_seq, decide, go_live, append, draw}
use yaoki.Context.Triple.{Triple, Triple-pure, Triple-lift, Triple-bind, Triple-given}
use yaoki.Context.Legality.{history, Legal, Synced, Good, ReadyIn, append-At, draw-At}
use yaoki.Context.Replay.{
  nothing, event, shows, Taken, Pending, take_seq-Taken, go_live-At, At-Good,
}
use yaoki.Context.Now.{ReplayedEffect, recorded, run_live}
use yaoki.Context.Random.{match_random, decide_random, answer_random, resolve_random}

module _ {S W : Type 0} {store : JournalStore S} (contract : Contract store) where
  -- What a decision has established.
  abbrev Decided : Seq → ReplayedEffect RandomBytes → WorkflowCtx S W → Type 0
  Decided n (recorded (ok value)) c = Good contract c
  Decided n (recorded (err error)) c = Legal contract c
  Decided n run_live c = Pending contract (ready n) n c

  abbrev DecidedIn : Seq → WorkflowCtx S W → ReplayedEffect RandomBytes × Mode → Type 0
  DecidedIn n c (d, mode) = Decided n d (record c { mode = mode })

  consumed :
      (n offset : Seq) (c : WorkflowCtx S W) (cursor : ReplayCursor) (e : JournalEvent)
      (next : HistoryState)
      → Taken contract n c
      → advance (ready n) e offset ≡ ok next
      → Synced (history contract c) next (Cursor.advance cursor)
      → DecidedIn n c (match_random n cursor (some e))
  unfolding match_random
  consumed n offset c cursor (random_recorded m value) next t a s =
      subst (λ q. Synced (history contract c) q (Cursor.advance cursor))
        (random_inv n m offset value a ∙ ap ready (sym t.next)) s
  consumed n offset c cursor _ next t a s = s.legal

  decided :
      (n : Seq) (c : WorkflowCtx S W) (mode : Mode)
      → Taken contract n c
      → ReadyIn n mode (history contract c)
      → DecidedIn n c (decide_random n mode)
  unfolding decide_random match_random
  decided n c live t h = record { room = t.room; next = t.next; read = h }
  decided n c (replaying cursor) t h = elim (shows (history contract c) h) [
    | nothing e read ↦ rw e (record { room = t.room; next = t.next; read = read })
    | event e offset next peeked a s ↦ rw peeked (consumed n offset c cursor e next t a s)
  ]

module _ {S W : Type 0} {store : JournalStore S} (contract : Contract store)
    (env : Environment W) where
  decide-Decided :
      (n : Seq)
      → Triple
          (Taken contract n)
          (decide {S = S} {W = W} (decide_random n))
          (Decided contract n)
          (λ (e : EngineError). Legal contract)
  unfolding decide
  decide-Decided n = record { at = λ c h. decided contract n c c.mode h h.ready_in }

  answer-Good :
      (n : Seq) (d : ReplayedEffect RandomBytes)
      → Triple
          (Decided contract n d)
          (answer_random store env n d)
          (λ _. Good contract)
          (λ _. Legal contract)
  unfolding answer_random
  answer-Good n (recorded (ok value)) = Triple-lift (ok value) (λ c h. h)
  answer-Good n (recorded (err error)) = Triple-lift (err error) (λ c h. h)
  answer-Good n run_live =
      Triple-given (λ c h. h.room)
        λ room. Triple-bind go_live _ (go_live-At contract (ready n) n) λ _.
          Triple-bind (draw env) _ (draw-At contract env (ready n) (n + 1)) λ value.
            Triple-bind (append store (random_recorded n value)) _
              (append-At contract env (ready n) (ready (n + 1)) (random_recorded n value) (n + 1)
                (λ i. advance-random n i room value) tt)
              λ _. Triple-pure value (At-Good contract n)

  -- From a context that may be given a command, `random` succeeds at another one, or leaves a journal
  -- that can be read.
  pub resolve_random-Good :
      Triple (Good contract) (resolve_random store env) (λ _. Good contract) (λ _. Legal contract)
  unfolding resolve_random
  resolve_random-Good =
      Triple-bind take_seq _ (take_seq-Taken contract)
        λ n. Triple-bind (decide (decide_random n)) _ (decide-Decided n) (answer-Good n)
