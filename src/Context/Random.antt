-- ===== src/Context/Random.antt =====
-- `WorkflowCtx::random` and `resolve_random` of src/context.rs: a journaled draw.
pub mod Legality
pub mod Replayed
use yaoki.Prelude.{Option, none, some, ok, err}
use yaoki.Seq.{Seq}
use yaoki.Random.{RandomBytes}
use yaoki.Command.{CommandKind}
use yaoki.Journal.{JournalEvent, random_recorded}
use yaoki.Journal.Store.{JournalStore}
use yaoki.Context.Cursor
use yaoki.Context.Cursor.{ReplayCursor}
use yaoki.Context.State.{Environment, EngineError, Mode, replaying, live}
use yaoki.Context.Now.{ReplayedEffect, recorded, run_live}
use yaoki.Context.Monad.{
  Action, pure, lift, ◌>>=◌, ◌>>◌, healthy_only, retain, take_seq, decide, diverged, go_live,
  append, draw,
}

-- The decision at the event that the cursor shows.
unfoldable pub match_random :
    Seq → ReplayCursor → Option JournalEvent → ReplayedEffect RandomBytes × Mode
match_random seq cursor none = (run_live, replaying cursor)
match_random seq cursor (some (random_recorded _ value)) =
    (recorded (ok value), replaying (Cursor.advance cursor))
match_random seq cursor (some event) =
    (recorded (err (diverged seq event CommandKind.draw_random)), replaying cursor)

unfoldable pub decide_random : Seq → Mode → ReplayedEffect RandomBytes × Mode
unfolding match_random
decide_random seq live = (run_live, live)
decide_random seq (replaying cursor) = match_random seq cursor (Cursor.peek cursor)

module _ {S W : Type 0} (store : JournalStore S) (env : Environment W) where
  unfoldable pub answer_random :
      Seq → ReplayedEffect RandomBytes → Action S W RandomBytes EngineError
  answer_random seq (recorded result) = lift result
  answer_random seq run_live = do
    go_live
    value ← draw env
    append store (random_recorded seq value)
    pure value

  unfoldable pub resolve_random : Action S W RandomBytes EngineError
  unfolding decide_random answer_random
  resolve_random = do
    seq ← take_seq
    decision ← decide (decide_random seq)
    answer_random seq decision

  unfoldable pub random : Action S W RandomBytes EngineError
  unfolding resolve_random
  random = healthy_only (retain resolve_random)
