-- ===== src/Context/Sleep/Legality.antt =====
-- `sleep_until` of src/context.rs keeps the event grammar.
use yaoki.Prelude.{
  ◌+◌, ◌<◌, ◌≡◌, sym, ◌∙◌, ap, some, ok, err, subst, Bool-cases, inl, inr, ◌==◌, nat_eq,
}
use yaoki.Seq.{Seq, u64_max}
use yaoki.Time.{Deadline}
use yaoki.Journal.{JournalEvent, timer_scheduled, timer_fired}
use yaoki.Journal.Store.{JournalStore, Contract}
use yaoki.History.{HistoryState, ready, timer, advance}
use yaoki.History.Advance.{advance-timer, advance-fired, timer_inv, fired_inv}
use yaoki.Failpoints.{after_timer_scheduled, after_timer_fired}
use yaoki.Context.Cursor
use yaoki.Context.Cursor.{ReplayCursor}
use yaoki.Context.State.{WorkflowCtx, Environment, EngineError, Mode, replaying, live}
use yaoki.Context.Monad.{take_seq, decide, go_live, append, wait, checkpoint}
use yaoki.Context.Triple.{Triple, Triple-lift, Triple-bind, Triple-given, Triple-weaken}
use yaoki.Context.Legality.{
  history, Legal, At, Synced, Good, ReadyIn, append-At, wait-At, checkpoint-At,
}
use yaoki.Context.Replay.{
  nothing, event, shows, Taken, Pending, take_seq-Taken, go_live-At, At-Good,
}
use yaoki.Context.Sleep.{
  SleepDecision, use_recorded, rearm, run_live, match_fired, match_timer, decide_sleep, fire,
  answer_sleep, resolve_sleep,
}

module _ {S W : Type 0} {store : JournalStore S} (contract : Contract store) where
  -- What a decision has established.
  abbrev Decided : Seq → SleepDecision → WorkflowCtx S W → Type 0
  Decided n (use_recorded (ok _)) c = Good contract c
  Decided n (use_recorded (err error)) c = Legal contract c
  Decided n rearm c = Pending contract (timer n) n c
  Decided n run_live c = Pending contract (ready n) n c

  abbrev DecidedIn : Seq → WorkflowCtx S W → SleepDecision × Mode → Type 0
  DecidedIn n c (d, mode) = Decided n d (record c { mode = mode })

  fired_event :
      (n offset : Seq) (c : WorkflowCtx S W) (cursor : ReplayCursor) (e : JournalEvent)
      (next : HistoryState)
      → Taken contract n c
      → advance (timer n) e offset ≡ ok next
      → Synced (history contract c) next (Cursor.advance cursor)
      → DecidedIn n c (match_fired n cursor (some e))
  unfolding match_fired
  fired_event n offset c cursor (timer_fired m) next t a s =
      subst (λ q. Synced (history contract c) q (Cursor.advance cursor))
        (fired_inv n m offset a ∙ ap ready (sym t.next)) s
  fired_event n offset c cursor _ next t a s = s.legal

  -- Behind a matching `TimerScheduled`.
  armed :
      (n : Seq) (c : WorkflowCtx S W) (cursor : ReplayCursor)
      → Taken contract n c
      → Synced (history contract c) (timer n) cursor
      → DecidedIn n c (match_fired n cursor (Cursor.peek cursor))
  unfolding match_fired
  armed n c cursor t h = elim (shows (history contract c) h) [
    | nothing e read ↦ rw e (record { room = t.room; next = t.next; read = read })
    | event e offset next peeked a s ↦ rw peeked (fired_event n offset c cursor e next t a s)
  ]

  timer_event :
      (n offset : Seq) (deadline : Deadline) (c : WorkflowCtx S W) (cursor : ReplayCursor)
      (e : JournalEvent) (next : HistoryState)
      → Taken contract n c
      → advance (ready n) e offset ≡ ok next
      → Synced (history contract c) next (Cursor.advance cursor)
      → DecidedIn n c (match_timer n deadline cursor (some e))
  unfolding match_timer
  timer_event n offset deadline c cursor (timer_scheduled m journaled) next t a s =
      elim (Bool-cases (journaled.timestamp == deadline.timestamp)) [
        | inl e ↦ rw e (
            armed n c (Cursor.advance cursor) t (
              subst (λ q. Synced (history contract c) q (Cursor.advance cursor))
                (timer_inv n m offset journaled a) s))
        | inr e ↦ rw e s.legal
      ]
  timer_event n offset deadline c cursor _ next t a s = s.legal

  decided :
      (n : Seq) (deadline : Deadline) (c : WorkflowCtx S W) (mode : Mode)
      → Taken contract n c
      → ReadyIn n mode (history contract c)
      → DecidedIn n c (decide_sleep n deadline mode)
  unfolding decide_sleep match_timer
  decided n deadline c live t h = record { room = t.room; next = t.next; read = h }
  decided n deadline c (replaying cursor) t h = elim (shows (history contract c) h) [
    | nothing e read ↦ rw e (record { room = t.room; next = t.next; read = read })
    | event e offset next peeked a s ↦
        rw peeked (timer_event n offset deadline c cursor e next t a s)
  ]

module _ {S W : Type 0} {store : JournalStore S} (contract : Contract store)
    (env : Environment W) where
  decide-Decided :
      (n : Seq) (deadline : Deadline)
      → Triple
          (Taken contract n)
          (decide {S = S} {W = W} (decide_sleep n deadline))
          (Decided contract n)
          (λ (e : EngineError). Legal contract)
  unfolding decide
  decide-Decided n deadline = record {
    at = λ c h. decided contract n deadline c c.mode h h.ready_in;
  }

  -- The wait and its record, from a timer that is journaled.
  fire-Good :
      (n : Seq) (deadline : Deadline)
      → n < u64_max
      → Triple
          (At contract (timer n) (n + 1))
          (fire store env n deadline)
          (λ _. Good contract)
          (λ _. Legal contract)
  unfolding fire
  fire-Good n deadline room =
      Triple-bind (wait env deadline.timestamp) _
        (wait-At contract env (timer n) (n + 1) deadline.timestamp)
        λ _.
          Triple-bind (append store (timer_fired n)) _
            (append-At contract env (timer n) (ready (n + 1)) (timer_fired n) (n + 1)
              (λ i. advance-fired n i room) tt)
            λ _.
              Triple-weaken
                (checkpoint-At contract env (ready (n + 1)) (n + 1) (after_timer_fired n))
                (λ _. At-Good contract n)

  answer-Good :
      (n : Seq) (deadline : Deadline) (d : SleepDecision)
      → Triple
          (Decided contract n d)
          (answer_sleep store env n deadline d)
          (λ _. Good contract)
          (λ _. Legal contract)
  unfolding answer_sleep
  answer-Good n deadline (use_recorded (ok x)) = Triple-lift (ok x) (λ c h. h)
  answer-Good n deadline (use_recorded (err error)) = Triple-lift (err error) (λ c h. h)
  answer-Good n deadline rearm =
      Triple-given (λ c h. h.room)
        λ room.
          Triple-bind go_live _ (go_live-At contract (timer n) n) λ _. fire-Good n deadline room
  answer-Good n deadline run_live =
      Triple-given (λ c h. h.room)
        λ room. Triple-bind go_live _ (go_live-At contract (ready n) n) λ _.
          Triple-bind (append store (timer_scheduled n deadline)) _
            (append-At contract env (ready n) (timer n) (timer_scheduled n deadline) (n + 1)
              (λ i. advance-timer n i room deadline) tt)
            λ _.
              Triple-bind (checkpoint env (after_timer_scheduled n)) _
                (checkpoint-At contract env (timer n) (n + 1) (after_timer_scheduled n))
                λ _. fire-Good n deadline room

  pub resolve_sleep-Good :
      (deadline : Deadline)
      → Triple
          (Good contract)
          (resolve_sleep store env deadline)
          (λ _. Good contract)
          (λ _. Legal contract)
  unfolding resolve_sleep
  resolve_sleep-Good deadline = Triple-bind take_seq _ (take_seq-Taken contract) λ n.
      Triple-bind (decide (decide_sleep n deadline)) _ (decide-Decided n deadline)
        (answer-Good n deadline)
