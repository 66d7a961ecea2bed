-- ===== src/History.antt =====
-- src/history.rs: the event grammar of a journal. `parse` folds `advance` over the events that
-- follow the start record and then asks whether the end can be resumed. Its proofs stand below.
pub mod Walk
pub mod Advance
pub mod Parse
pub mod Bounds
pub mod Order
use yaoki.Prelude.{
  ℕ, suc, ◌-◌, List, [], ◌∷◌, Option, none, some, Result, ok, err, ◌>>=◌, ◌>>◌, map_err, length,
  head?, tail, if◌then◌else◌, ◌==◌, nat_eq,
}
use yaoki.Execution.{WorkflowErrorRecord}
use yaoki.Seq
use yaoki.Seq.{Seq, EventOffset}
use yaoki.Step.{Attempt, first_attempt, next_attempt}
use yaoki.Journal.{
  EventPayload, Journal, JournalEvent, execution_started, step_scheduled, step_started,
  step_completed, step_failed, now_recorded, random_recorded, timer_scheduled, timer_fired,
  execution_completed, execution_failed,
}

pub data HistoryError : Type 0 where
  empty : HistoryError
  unexpected_event : EventOffset → HistoryError
  -- offset, expected, recorded
  position_mismatch : EventOffset → Seq → Seq → HistoryError
  attempt_mismatch : EventOffset → Attempt → Attempt → HistoryError
  sequence_overflow : EventOffset → HistoryError
  attempt_overflow : EventOffset → HistoryError

pub data HistoryState : Type 0 where
  ready : Seq → HistoryState
  scheduled : Seq → HistoryState
  started : Seq → Attempt → HistoryState
  timer : Seq → HistoryState
  completed : EventPayload → HistoryState
  failed : WorkflowErrorRecord → HistoryState

abbrev unexpected : {A : Type 0} → EventOffset → Result A HistoryError
unexpected offset = err (unexpected_event offset)

position : Seq → Seq → EventOffset → Result (Unit {0}) HistoryError
position expected recorded offset =
    if expected == recorded then ok tt else err (position_mismatch offset expected recorded)

attempt_number : Attempt → Attempt → EventOffset → Result (Unit {0}) HistoryError
attempt_number expected recorded offset =
    if expected == recorded then ok tt else err (attempt_mismatch offset expected recorded)

ready_after : Seq → EventOffset → Result HistoryState HistoryError
ready_after seq offset = do
  seq' ← map_err (λ _. sequence_overflow offset) (Seq.next seq)
  ok (ready seq')

require_ready : HistoryState → EventOffset → Result Seq HistoryError
require_ready (ready seq) offset = ok seq
require_ready _ offset = unexpected offset

require_started : HistoryState → EventOffset → Result (Seq × Attempt) HistoryError
require_started (started seq attempt) offset = ok (seq, attempt)
require_started _ offset = unexpected offset

require_timer : HistoryState → EventOffset → Result Seq HistoryError
require_timer (timer seq) offset = ok seq
require_timer _ offset = unexpected offset

-- The position and the number of the attempt that may start next.
expected_attempt : HistoryState → EventOffset → Result (Seq × Attempt) HistoryError
expected_attempt (scheduled seq) offset = ok (seq, first_attempt)
expected_attempt (started seq attempt) offset = do
  attempt' ← map_err (λ _. attempt_overflow offset) (next_attempt attempt)
  ok (seq, attempt')
expected_attempt _ offset = unexpected offset

start_attempt : HistoryState → Seq → Attempt → EventOffset → Result HistoryState HistoryError
start_attempt state seq attempt offset = do
  (expected_seq, expected) ← expected_attempt state offset
  position expected_seq seq offset
  attempt_number expected attempt offset
  ok (started seq attempt)

unfoldable pub advance :
    HistoryState → JournalEvent → EventOffset → Result HistoryState HistoryError
unfolding position attempt_number ready_after require_ready require_started require_timer
    expected_attempt start_attempt
advance state (execution_started workflow version input) offset = unexpected offset
advance state (step_scheduled seq name) offset = do
  expected ← require_ready state offset
  position expected seq offset
  ready_after seq offset
  ok (scheduled seq)
advance state (step_started seq attempt) offset = start_attempt state seq attempt offset
advance state (step_completed seq result) offset = do
  (expected, _) ← require_started state offset
  position expected seq offset
  ready_after seq offset
advance state (step_failed seq attempt error) offset = do
  (expected_seq, expected) ← require_started state offset
  position expected_seq seq offset
  attempt_number expected attempt offset
  ready_after seq offset
advance state (now_recorded seq value) offset = do
  expected ← require_ready state offset
  position expected seq offset
  ready_after seq offset
advance state (random_recorded seq value) offset = do
  expected ← require_ready state offset
  position expected seq offset
  ready_after seq offset
advance state (timer_scheduled seq deadline) offset = do
  expected ← require_ready state offset
  position expected seq offset
  ready_after seq offset
  ok (timer seq)
advance state (timer_fired seq) offset = do
  expected ← require_timer state offset
  position expected seq offset
  ready_after seq offset
advance state (execution_completed output) offset = do
  require_ready state offset
  ok (completed output)
advance state (execution_failed error) offset = do require_ready state offset; ok (failed error)

ensure_resumable : HistoryState → EventOffset → Result (Unit {0}) HistoryError
ensure_resumable (started seq attempt) offset = do
  map_err (λ _. attempt_overflow offset) (next_attempt attempt)
  ok tt
ensure_resumable _ offset = ok tt

-- `try_fold` over the events from an offset on.
unfoldable pub walk :
    EventOffset → HistoryState → List JournalEvent → Result HistoryState HistoryError
walk offset state [] = ok state
walk offset state (event ∷ events) =
    advance state event offset >>= λ state'. walk (suc offset) state' events

-- The first event must be a start record.
check_start : Option JournalEvent → Result (Unit {0}) HistoryError
check_start none = err empty
check_start (some (execution_started workflow version input)) = ok tt
check_start (some _) = unexpected 0

pub record ValidatedHistory : Type 0 where
  pub journal : Journal
  pub end : HistoryState

-- The part of `parse` that reads the events, without the check of the end.
unfoldable pub scan : Journal → Result HistoryState HistoryError
unfolding check_start
scan journal = do check_start (head? journal); walk 1 (ready Seq.zero) (tail journal)

unfoldable pub parse : Journal → Result ValidatedHistory HistoryError
unfolding ensure_resumable
parse journal = do
  end ← scan journal
  ensure_resumable end (length journal - 1)
  ok (record { journal = journal; end = end })

-- A validated nonterminal history.
pub record ReplayHistory : Type 0 where
  pub journal : Journal

pub data RecoveryHistory : Type 0 where
  running : ReplayHistory → RecoveryHistory
  completed : EventPayload → RecoveryHistory
  failed : WorkflowErrorRecord → RecoveryHistory

unfoldable pub into_recovery : ValidatedHistory → RecoveryHistory
into_recovery history = elim history.end [
  | HistoryState.completed output ↦ RecoveryHistory.completed output
  | HistoryState.failed error ↦ RecoveryHistory.failed error
  | _ ↦ running (record { journal = history.journal })
]
