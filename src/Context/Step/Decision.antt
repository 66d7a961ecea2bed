-- ===== src/Context/Step/Decision.antt =====
-- How the decision of `resolve_step` of src/context.rs, live or replayed, stands in the event grammar.
use yaoki.Prelude.{
  ℕ, ◌≡◌, refl, sym, ◌∙◌, ap, none, some, Result, ok, err, subst, Bool-cases, inl, inr, ◌==◌,
  list_eq, nat_eq, length,
}
use yaoki.Seq.{Seq}
use yaoki.Step.{StepName, Attempt, AttemptOverflow, first_attempt}
use yaoki.Journal.{JournalEvent, step_scheduled, step_completed, step_failed}
use yaoki.Journal.Store.{JournalStore, Contract}
use yaoki.History.{HistoryState, ready, scheduled, started, timer, completed, failed, advance, scan}
use yaoki.History.Advance.{Awaits, scheduled_inv}
use yaoki.Context.Cursor
use yaoki.Context.Cursor.{ReplayCursor}
use yaoki.Context.State.{
  WorkflowCtx, Environment, EngineError, StepError, engine, Mode, replaying, live,
}
use yaoki.Context.State
use yaoki.Context.Legality.{history, Legal, Synced, Good, ReadyIn}
use yaoki.Context.Replay.{nothing, event, shows, Taken, Pending}
use yaoki.Context.Step.{
  fresh, retry, StepDecision, use_recorded, run_live, match_outcome, replay_step_outcome, entry_of,
  match_step, decide_step, skip_attempts,
}
use yaoki.Context.Step.Attempts.{Resumes, completed_in, failed_in, Stopped, skip_attempts-Stopped}

module _ {S W : Type 0} {store : JournalStore S} (contract : Contract store) where
  -- An engine error leaves a journal that can be read, a business failure a context that goes on.
  abbrev pub Failed : StepError → WorkflowCtx S W → Type 0
  Failed (State.failed error) c = Good contract c
  Failed (engine error) c = Legal contract c

  -- The journal ends in the state in which attempt `k` of command `n` may start.
  abbrev pub Interrupted : Seq → Attempt → WorkflowCtx S W → Type 0
  Interrupted n k c = (state : HistoryState) × Awaits state n k × Pending contract state n c

  -- What a decision has established.
  abbrev pub Decided : Seq → StepDecision → WorkflowCtx S W → Type 0
  Decided n (use_recorded (ok value)) c = Good contract c
  Decided n (use_recorded (err error)) c = Failed error c
  Decided n (run_live fresh) c = Pending contract (ready n) n c
  Decided n (run_live (retry k)) c = Interrupted n k c

  abbrev pub DecidedIn : Seq → WorkflowCtx S W → StepDecision × Mode → Type 0
  DecidedIn n c (d, mode) = Decided n d (record c { mode = mode })

  -- The end of the journal behind the attempts.
  outcome_end :
      (n : Seq) (c : WorkflowCtx S W) (cursor : ReplayCursor) (state : HistoryState)
      (next : Result Attempt AttemptOverflow)
      → Taken contract n c
      → Resumes state n next
      → scan (history contract c) ≡ ok state
      → DecidedIn n c (entry_of (match_outcome n cursor next none))
  unfolding match_outcome
  outcome_end n c cursor state (err e) t r read = (state, read)
  outcome_end n c cursor state (ok k) t r read =
      (state, awaits state r, record { room = t.room; next = t.next; read = read })
    where
      awaits : (state : HistoryState) → Resumes state n (ok k) → Awaits state n k
      awaits (scheduled m) r = (r.0, cc r.1)
      awaits (started m j) r = (r.0, sym r.1)
      awaits (ready m) r = absurd r
      awaits (timer m) r = absurd r
      awaits (completed o) r = absurd r
      awaits (failed e) r = absurd r

  outcome_event :
      (n offset : Seq) (c : WorkflowCtx S W) (cursor : ReplayCursor) (state after : HistoryState)
      (next : Result Attempt AttemptOverflow) (e : JournalEvent)
      → Taken contract n c
      → Resumes state n next
      → advance state e offset ≡ ok after
      → Synced (history contract c) after (Cursor.advance cursor)
      → DecidedIn n c (entry_of (match_outcome n cursor next (some e)))
  unfolding match_outcome
  outcome_event n offset c cursor state after next (step_completed m result) t r a s =
      subst (λ q. Synced (history contract c) q (Cursor.advance cursor))
        (completed_in state n m offset result next r a ∙ ap ready (sym t.next)) s
  outcome_event n offset c cursor state after next (step_failed m k error) t r a s =
      subst (λ q. Synced (history contract c) q (Cursor.advance cursor))
        (failed_in state n m k offset error next r a ∙ ap ready (sym t.next)) s
  outcome_event n offset c cursor state after next _ t r a s = s.legal

  outcome :
      (n : Seq) (c : WorkflowCtx S W) (cursor : ReplayCursor)
      (next : Result Attempt AttemptOverflow)
      → Taken contract n c
      → Stopped (history contract c) n (cursor, next)
      → DecidedIn n c (entry_of (match_outcome n cursor next (Cursor.peek cursor)))
  outcome n c cursor next t (state, s, r) = elim (shows (history contract c) s) [
    | nothing e read ↦ rw e (outcome_end n c cursor state next t r read)
    | event e offset after peeked a s' ↦
        rw peeked (outcome_event n offset c cursor state after next e t r a s')
  ]

  step_event :
      (n offset : Seq) (name : StepName) (c : WorkflowCtx S W) (cursor : ReplayCursor)
      (e : JournalEvent) (next : HistoryState)
      → Taken contract n c
      → advance (ready n) e offset ≡ ok next
      → Synced (history contract c) next (Cursor.advance cursor)
      → DecidedIn n c (match_step n name cursor (some e))
  unfolding match_step replay_step_outcome
  step_event n offset name c cursor (step_scheduled m journaled) next t a s =
      elim (Bool-cases (journaled == name)) [
        | inl e ↦ rw e (
            outcome n c stop.0 stop.1 t (
              skip_attempts-Stopped (history contract c) fuel n (scheduled n)
                (Cursor.advance cursor) (ok first_attempt)
                (subst (λ q. Synced (history contract c) q (Cursor.advance cursor))
                  (scheduled_inv n m offset journaled a) s)
                (refl, refl)))
        | inr e ↦ rw e s.legal
      ]
    where
      fuel : ℕ
      fuel = length (Cursor.events (Cursor.advance cursor))

      stop : ReplayCursor × Result Attempt AttemptOverflow
      stop = skip_attempts fuel (Cursor.advance cursor) (ok first_attempt)
  step_event n offset name c cursor _ next t a s = s.legal

  pub decided :
      (n : Seq) (name : StepName) (c : WorkflowCtx S W) (mode : Mode)
      → Taken contract n c
      → ReadyIn n mode (history contract c)
      → DecidedIn n c (decide_step n name mode)
  unfolding decide_step match_step
  decided n name c live t h = record { room = t.room; next = t.next; read = h }
  decided n name c (replaying cursor) t h = elim (shows (history contract c) h) [
    | nothing e read ↦ rw e (record { room = t.room; next = t.next; read = read })
    | event e offset next peeked a s ↦ rw peeked (step_event n offset name c cursor e next t a s)
  ]
