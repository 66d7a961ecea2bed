-- ===== src/Context/Now.antt =====
-- `WorkflowCtx::now` and `resolve_now` of src/context.rs: a journaled clock read.
pub mod Legality
pub mod Replayed
use yaoki.Prelude.{Option, none, some, Result, ok, err}
use yaoki.Seq.{Seq}
use yaoki.Time.{Timestamp}
use yaoki.Command.{CommandKind}
use yaoki.Journal.{JournalEvent, now_recorded}
use yaoki.Journal.Store.{JournalStore}
use yaoki.Context.Cursor
use yaoki.Context.Cursor.{ReplayCursor}
use yaoki.Context.State.{Environment, EngineError, Mode, replaying, live}
use yaoki.Context.Monad.{
  Action, pure, lift, ◌>>=◌, ◌>>◌, healthy_only, retain, take_seq, decide, diverged, go_live,
  append, read_clock,
}

pub data ReplayedEffect (T : Type 0) : Type 0 where
  recorded : Result T EngineError → ReplayedEffect T
  run_live : ReplayedEffect T

-- The decision at the event that the cursor shows.
unfoldable pub match_now :
    Seq → ReplayCursor → Option JournalEvent → ReplayedEffect Timestamp × Mode
match_now seq cursor none = (run_live, replaying cursor)
match_now seq cursor (some (now_recorded _ value)) =
    (recorded (ok value), replaying (Cursor.advance cursor))
match_now seq cursor (some event) =
    (recorded (err (diverged seq event CommandKind.read_now)), replaying cursor)

unfoldable pub decide_now : Seq → Mode → ReplayedEffect Timestamp × Mode
unfolding match_now
decide_now seq live = (run_live, live)
decide_now seq (replaying cursor) = match_now seq cursor (Cursor.peek cursor)

module _ {S W : Type 0} (store : JournalStore S) (env : Environment W) where
  unfoldable pub answer_now : Seq → ReplayedEffect Timestamp → Action S W Timestamp EngineError
  answer_now seq (recorded result) = lift result
  answer_now seq run_live = do
    go_live
    value ← read_clock env
    append store (now_recorded seq value)
    pure value

  unfoldable pub resolve_now : Action S W Timestamp EngineError
  unfolding decide_now answer_now
  resolve_now = do seq ← take_seq; decision ← decide (decide_now seq); answer_now seq decision

  unfoldable pub now : Action S W Timestamp EngineError
  unfolding resolve_now
  now = healthy_only (retain resolve_now)
