-- ===== src/Context/Step/Attempts.antt =====
-- The loop over recorded attempts in `replay_step_outcome` of src/context.rs.
use yaoki.Prelude.{ℕ, zero, suc, ◌+◌, ◌≡◌, refl, some, Result, ok, subst, arith}
use yaoki.Seq
use yaoki.Seq.{Seq}
use yaoki.Step.{Attempt, AttemptOverflow, StepErrorRecord, first_attempt, next_attempt}
use yaoki.Journal.{JournalEvent, Journal, EventPayload, step_started, step_completed, step_failed}
use yaoki.History.{HistoryState, ready, scheduled, started, timer, completed, failed, advance}
use yaoki.Context.Cursor
use yaoki.Context.Cursor.{ReplayCursor}
use yaoki.Context.Legality.{Synced}
use yaoki.Context.Replay.{nothing, event, shows}
use yaoki.Context.Step.{skip_attempts}

-- In the state of a step, the attempt that a rerun would start.
abbrev pub Resumes : HistoryState → Seq → Result Attempt AttemptOverflow → Type 0
Resumes (scheduled m) n next = (m ≡ n) × (next ≡ ok first_attempt)
Resumes (started m k) n next = (m ≡ n) × (next ≡ next_attempt k)
Resumes _ n next = ⊥

pub started_inv :
    (state : HistoryState) (n m : Seq) (k : Attempt) (offset : ℕ)
    (before : Result Attempt AttemptOverflow) {next : HistoryState}
    → Resumes state n before
    → advance state (step_started m k) offset ≡ ok next
    → next ≡ started n k
unfolding advance next_attempt
started_inv (scheduled j) n m k offset before r a = ground arith
started_inv (started j i) n m k offset before r a = ground arith
started_inv (ready j) n m k offset before r a = absurd r
started_inv (timer j) n m k offset before r a = absurd r
started_inv (completed o) n m k offset before r a = absurd r
started_inv (failed e) n m k offset before r a = absurd r

-- The outcomes behind a step.
pub completed_in :
    (state : HistoryState) (n m : Seq) (offset : ℕ) (result : EventPayload)
    (before : Result Attempt AttemptOverflow) {next : HistoryState}
    → Resumes state n before
    → advance state (step_completed m result) offset ≡ ok next
    → next ≡ ready (n + 1)
unfolding advance Seq.next
completed_in (started j i) n m offset result before r a = ground arith
completed_in (scheduled j) n m offset result before r a = cc
completed_in (ready j) n m offset result before r a = absurd r
completed_in (timer j) n m offset result before r a = absurd r
completed_in (completed o) n m offset result before r a = absurd r
completed_in (failed e) n m offset result before r a = absurd r

pub failed_in :
    (state : HistoryState) (n m : Seq) (k : Attempt) (offset : ℕ) (error : StepErrorRecord)
    (before : Result Attempt AttemptOverflow) {next : HistoryState}
    → Resumes state n before
    → advance state (step_failed m k error) offset ≡ ok next
    → next ≡ ready (n + 1)
unfolding advance Seq.next
failed_in (started j i) n m k offset error before r a = ground arith
failed_in (scheduled j) n m k offset error before r a = cc
failed_in (ready j) n m k offset error before r a = absurd r
failed_in (timer j) n m k offset error before r a = absurd r
failed_in (completed o) n m k offset error before r a = absurd r
failed_in (failed e) n m k offset error before r a = absurd r

-- One round at an event: it consumes an attempt, and stops at anything else.
skip_event :
    (P : ReplayCursor × Result Attempt AttemptOverflow → Type 0) (fuel : ℕ) (cursor : ReplayCursor)
    (next : Result Attempt AttemptOverflow) (e : JournalEvent)
    → Cursor.peek cursor ≡ some e
    → ((m : Seq) (k : Attempt)
        → e ≡ step_started m k
        → P (skip_attempts fuel (Cursor.advance cursor) (next_attempt k)))
    → P (cursor, next)
    → P (skip_attempts (suc fuel) cursor next)
unfolding skip_attempts
skip_event P fuel cursor next (step_started m k) e hs hn = rw (e, skip_attempts) (hs m k refl)
skip_event P fuel cursor next _ e hs hn = rw (e, skip_attempts) hn

-- The loop stands in step where it stops, with the attempt that a rerun would start.
abbrev pub Stopped : Journal → Seq → ReplayCursor × Result Attempt AttemptOverflow → Type 0
Stopped journal n (cursor, next) =
    (state : HistoryState) × Synced journal state cursor × Resumes state n next

-- With any fuel, from a cursor in step with a readable journal behind a step's schedule or attempt,
-- the loop over recorded attempts stops in step with the journal, still in that step, with the
-- number of the attempt that a rerun would start.
pub skip_attempts-Stopped :
    (journal : Journal) (fuel : ℕ) (n : Seq) (state : HistoryState) (cursor : ReplayCursor)
    (next : Result Attempt AttemptOverflow)
    → Synced journal state cursor
    → Resumes state n next
    → Stopped journal n (skip_attempts fuel cursor next)
unfolding skip_attempts
skip_attempts-Stopped journal zero n state cursor next s r = (state, s, r)
skip_attempts-Stopped journal (suc fuel) n state cursor next s r = elim (shows journal s) [
  | nothing e read ↦ rw (e, skip_attempts) (state, s, r)
  | event e offset state' peeked a s' ↦
      skip_event (Stopped journal n) fuel cursor next e peeked
        (λ m k is.
          skip_attempts-Stopped journal fuel n (started n k) (Cursor.advance cursor)
            (next_attempt k)
            (subst (λ q. Synced journal q (Cursor.advance cursor))
              (started_inv state n m k offset next r (rw is at a)) s')
            (refl, refl))
        (state, s, r)
]
