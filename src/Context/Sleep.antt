-- ===== src/Context/Sleep.antt =====
-- `WorkflowCtx::sleep_until` and `resolve_sleep` of src/context.rs: a durable timer.
pub mod Legality
use yaoki.Prelude.{Option, none, some, Result, ok, err, if◌then◌else◌, ◌==◌, nat_eq}
use yaoki.Seq.{Seq}
use yaoki.Time.{Deadline}
use yaoki.Command.{CommandKind}
use yaoki.Journal.{JournalEvent, timer_scheduled, timer_fired}
use yaoki.Journal.Store.{JournalStore}
use yaoki.Failpoints.{after_timer_scheduled, after_timer_fired}
use yaoki.Context.Cursor
use yaoki.Context.Cursor.{ReplayCursor}
use yaoki.Context.State.{Environment, EngineError, Mode, replaying, live}
use yaoki.Context.Monad.{
  Action, lift, ◌>>=◌, ◌>>◌, healthy_only, retain, take_seq, decide, diverged, go_live, append,
  wait, checkpoint,
}

pub data SleepDecision : Type 0 where
  use_recorded : Result (Unit {0}) EngineError → SleepDecision
  rearm : SleepDecision
  run_live : SleepDecision

-- What follows a matching `TimerScheduled`.
unfoldable pub match_fired : Seq → ReplayCursor → Option JournalEvent → SleepDecision × Mode
match_fired seq cursor none = (rearm, replaying cursor)
match_fired seq cursor (some (timer_fired _)) =
    (use_recorded (ok tt), replaying (Cursor.advance cursor))
match_fired seq cursor (some event) =
    (use_recorded (err (diverged seq event CommandKind.sleep)), replaying cursor)

unfoldable pub match_timer :
    Seq → Deadline → ReplayCursor → Option JournalEvent → SleepDecision × Mode
unfolding match_fired
match_timer seq deadline cursor none = (run_live, replaying cursor)
match_timer seq deadline cursor (some (timer_scheduled s journaled)) =
    if journaled.timestamp == deadline.timestamp
    then (let next = Cursor.advance cursor in match_fired seq next (Cursor.peek next))
    else (
      use_recorded (err (diverged seq (timer_scheduled s journaled) CommandKind.sleep)),
      replaying cursor,
    )
match_timer seq deadline cursor (some event) =
    (use_recorded (err (diverged seq event CommandKind.sleep)), replaying cursor)

unfoldable pub decide_sleep : Seq → Deadline → Mode → SleepDecision × Mode
unfolding match_timer
decide_sleep seq deadline live = (run_live, live)
decide_sleep seq deadline (replaying cursor) = match_timer seq deadline cursor (Cursor.peek cursor)

module _ {S W : Type 0} (store : JournalStore S) (env : Environment W) where
  -- The wait toward the deadline and its record.
  unfoldable pub fire : Seq → Deadline → Action S W (Unit {0}) EngineError
  fire seq deadline = do
    wait env deadline.timestamp
    append store (timer_fired seq)
    checkpoint env (after_timer_fired seq)

  unfoldable pub answer_sleep : Seq → Deadline → SleepDecision → Action S W (Unit {0}) EngineError
  unfolding fire
  answer_sleep seq deadline (use_recorded result) = lift result
  answer_sleep seq deadline rearm = do go_live; fire seq deadline
  answer_sleep seq deadline run_live = do
    go_live
    append store (timer_scheduled seq deadline)
    checkpoint env (after_timer_scheduled seq)
    fire seq deadline

  unfoldable pub resolve_sleep : Deadline → Action S W (Unit {0}) EngineError
  unfolding decide_sleep answer_sleep
  resolve_sleep deadline = do
    seq ← take_seq
    decision ← decide (decide_sleep seq deadline)
    answer_sleep seq deadline decision

  unfoldable pub sleep_until : Deadline → Action S W (Unit {0}) EngineError
  unfolding resolve_sleep
  sleep_until deadline = healthy_only (retain (resolve_sleep deadline))
