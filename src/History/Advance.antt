-- ===== src/History/Advance.antt =====
-- The transitions of src/history.rs one by one: what each event needs, and what it leads to.
use yaoki.Prelude.{ℕ, ◌+◌, ◌<◌, ◌≡◌, ok, arith}
use yaoki.Random.{RandomBytes}
use yaoki.Seq
use yaoki.Seq.{Seq, u64_max}
use yaoki.Step.{StepName, Attempt, StepErrorRecord, first_attempt, next_attempt, attempt_number}
use yaoki.Time.{Timestamp, Deadline}
use yaoki.Journal.{
  EventPayload, step_scheduled, step_started, step_completed, step_failed, now_recorded,
  random_recorded, timer_scheduled, timer_fired,
}
use yaoki.History.{HistoryState, ready, scheduled, started, timer, completed, failed, advance}

module _ (n : Seq) (offset : ℕ) (room : n < u64_max) where
  pub advance-now :
      (value : Timestamp) → advance (ready n) (now_recorded n value) offset ≡ ok (ready (n + 1))
  unfolding advance Seq.next
  advance-now value = ground arith

  pub advance-random :
      (value : RandomBytes)
      → advance (ready n) (random_recorded n value) offset ≡ ok (ready (n + 1))
  unfolding advance Seq.next
  advance-random value = ground arith

  pub advance-timer :
      (deadline : Deadline) → advance (ready n) (timer_scheduled n deadline) offset ≡ ok (timer n)
  unfolding advance Seq.next
  advance-timer deadline = ground arith

  pub advance-fired : advance (timer n) (timer_fired n) offset ≡ ok (ready (n + 1))
  unfolding advance Seq.next
  advance-fired = ground arith

  pub advance-scheduled :
      (name : StepName) → advance (ready n) (step_scheduled n name) offset ≡ ok (scheduled n)
  unfolding advance Seq.next
  advance-scheduled name = ground arith

  pub advance-completed :
      (k : Attempt) (result : EventPayload)
      → advance (started n k) (step_completed n result) offset ≡ ok (ready (n + 1))
  unfolding advance Seq.next
  advance-completed k result = ground arith

  pub advance-failed :
      (k : Attempt) (error : StepErrorRecord)
      → advance (started n k) (step_failed n k error) offset ≡ ok (ready (n + 1))
  unfolding advance Seq.next
  advance-failed k error = ground arith

-- The state in which attempt `k` of command `n` may start.
abbrev pub Awaits : HistoryState → Seq → Attempt → Type 0
Awaits (scheduled m) n k = (m ≡ n) × (k ≡ first_attempt)
Awaits (started m j) n k = (m ≡ n) × (next_attempt j ≡ ok k)
Awaits _ n k = ⊥

-- An attempt that may start has a number that its constructor accepts.
pub Awaits-valid :
    (state : HistoryState) (n : Seq) (k : Attempt) → Awaits state n k → attempt_number k ≡ ok k
unfolding next_attempt attempt_number
Awaits-valid (scheduled m) n k h = ground arith
Awaits-valid (started m j) n k h = ground arith
Awaits-valid (ready m) n k h = absurd h
Awaits-valid (timer m) n k h = absurd h
Awaits-valid (completed o) n k h = absurd h
Awaits-valid (failed e) n k h = absurd h

pub advance-started :
    (state : HistoryState) (n : Seq) (k : Attempt) (offset : ℕ)
    → Awaits state n k
    → advance state (step_started n k) offset ≡ ok (started n k)
unfolding advance
advance-started (scheduled m) n k offset h = ground arith
advance-started (started m j) n k offset h = ground arith
advance-started (ready m) n k offset h = absurd h
advance-started (timer m) n k offset h = absurd h
advance-started (completed o) n k offset h = absurd h
advance-started (failed e) n k offset h = absurd h

module _ (n m : Seq) (offset : ℕ) {next : HistoryState} where
  pub now_inv :
      (value : Timestamp)
      → advance (ready n) (now_recorded m value) offset ≡ ok next
      → next ≡ ready (n + 1)
  unfolding advance Seq.next
  now_inv value h = ground arith

  pub random_inv :
      (value : RandomBytes)
      → advance (ready n) (random_recorded m value) offset ≡ ok next
      → next ≡ ready (n + 1)
  unfolding advance Seq.next
  random_inv value h = ground arith

  pub timer_inv :
      (deadline : Deadline)
      → advance (ready n) (timer_scheduled m deadline) offset ≡ ok next
      → next ≡ timer n
  unfolding advance Seq.next
  timer_inv deadline h = ground arith

  pub fired_inv : advance (timer n) (timer_fired m) offset ≡ ok next → next ≡ ready (n + 1)
  unfolding advance Seq.next
  fired_inv h = ground arith

  pub scheduled_inv :
      (name : StepName)
      → advance (ready n) (step_scheduled m name) offset ≡ ok next
      → next ≡ scheduled n
  unfolding advance Seq.next
  scheduled_inv name h = ground arith

  pub completed_inv :
      (k : Attempt) (result : EventPayload)
      → advance (started n k) (step_completed m result) offset ≡ ok next
      → next ≡ ready (n + 1)
  unfolding advance Seq.next
  completed_inv k result h = ground arith

  pub failed_inv :
      (k j : Attempt) (error : StepErrorRecord)
      → advance (started n k) (step_failed m j error) offset ≡ ok next
      → next ≡ ready (n + 1)
  unfolding advance Seq.next
  failed_inv k j error h = ground arith
