-- ===== src/Context/Keeps.antt =====
-- What every command of src/context.rs leaves alone: a predicate on contexts that the calls to the
-- store and to the world keep, and that says nothing of the position and the mode, is kept by each.
use yaoki.Prelude.{Result, ok, err, Bool-cases, inl, inr, ltb}
use yaoki.Seq
use yaoki.Seq.{Seq, u64_max}
use yaoki.Step.{StepName, Attempt, StepErrorRecord}
use yaoki.Time.{Timestamp, Deadline}
use yaoki.Random.{RandomBytes}
use yaoki.Journal.{JournalEvent, EventPayload}
use yaoki.Journal.Store.{JournalStore}
use yaoki.Failpoints.{CrashPoint}
use yaoki.Context.State.{WorkflowCtx, Environment, EngineError, Mode}
use yaoki.Context.Monad.{
  Action, pure, lift, ◌>>=◌, continue_with, as_step, take_seq, decide, go_live, append, checkpoint,
  read_clock, draw, wait,
}
use yaoki.Context.Now.{ReplayedEffect, recorded, run_live, answer_now, resolve_now}
use yaoki.Context.Random.{answer_random, resolve_random}
use yaoki.Context.Sleep.{SleepDecision, decide_sleep, fire, answer_sleep, resolve_sleep}
use yaoki.Context.Sleep
use yaoki.Context.Step.{
  StepBody, LiveEntry, fresh, retry, StepDecision, decide_step, enter, run_body, record_outcome,
  run_attempt, run_step_live, answer_step, resolve_step,
}
use yaoki.Context.Step

pub record Keeps {S W A E : Type 0} (P : WorkflowCtx S W → Type 0) (m : Action S W A E)
    : Type 0 where
  pub at : (c : WorkflowCtx S W) → P c → P (m c).1

module _ {S W : Type 0} {P : WorkflowCtx S W → Type 0} where
  continue_keeps :
      {A B E : Type 0} (r : Result A E) (f : A → Action S W B E) (c : WorkflowCtx S W)
      → P c
      → ((a : A) → Keeps P (f a))
      → P (continue_with r f c).1
  continue_keeps (ok a) f c h k = (k a).at c h
  continue_keeps (err e) f c h k = h

  pub Keeps-lift : {A E : Type 0} (r : Result A E) → Keeps P (lift r)
  unfolding lift
  Keeps-lift r = record { at = λ before kept. kept }

  pub Keeps-pure : {A E : Type 0} (a : A) → Keeps {E = E} P (pure a)
  unfolding pure
  Keeps-pure a = record { at = λ before kept. kept }

  pub Keeps-bind :
      {A B E : Type 0} (first : Action S W A E) (second : A → Action S W B E)
      → ((value : A) → Keeps P (second value))
      → Keeps P first
      → Keeps P (first >>= second)
  unfolding ◌>>=◌
  Keeps-bind first second each kept = record {
    at = λ c h. continue_keeps (first c).0 second (first c).1 (kept.at c h) each;
  }

  pub Keeps-as_step : {A : Type 0} (m : Action S W A EngineError) → Keeps P m → Keeps P (as_step m)
  unfolding as_step
  Keeps-as_step m k = record { at = k.at }

-- The calls that a predicate has to be closed under.
pub record IsFramed {S W : Type 0} (store : JournalStore S) (P : WorkflowCtx S W → Type 0)
    : Type 0 where
  pub world : (c : WorkflowCtx S W) (w : W) → P c → P (record c { world = w })
  pub place :
      (c : WorkflowCtx S W) (n : Seq) (mode : Mode) → P c → P (record c { seq = n; mode = mode })
  pub write :
      (c : WorkflowCtx S W) (e : JournalEvent)
      → P c
      → P (record c { store = (store.append c.execution e c.store).1 })

module _ {S W : Type 0} {store : JournalStore S} (env : Environment W)
    {P : WorkflowCtx S W → Type 0} (framed : IsFramed store P) where
  append-Keeps : (e : JournalEvent) → Keeps P (append store e)
  unfolding append
  append-Keeps e = record { at = λ c h. framed.write c e h }

  checkpoint-Keeps : (point : CrashPoint) → Keeps P (checkpoint env point)
  unfolding checkpoint
  checkpoint-Keeps point = record { at = λ c h. framed.world c (env.at point c.world).1 h }

  read_clock-Keeps : Keeps P (read_clock env)
  unfolding read_clock
  read_clock-Keeps = record { at = λ c h. framed.world c (env.now c.world).1 h }

  draw-Keeps : Keeps P (draw env)
  unfolding draw
  draw-Keeps = record { at = λ c h. framed.world c (env.next_bytes c.world).1 h }

  wait-Keeps : (deadline : Timestamp) → Keeps P (wait env deadline)
  unfolding wait
  wait-Keeps deadline = record { at = λ c h. framed.world c (env.sleep_until deadline c.world) h }

  run_body-Keeps : (f : StepBody W) (n : Seq) → Keeps P (run_body store env f n)
  unfolding run_body
  run_body-Keeps f n = record {
    at = λ c h. framed.world c (f (record { execution = c.execution; seq = n }) c.world).1 h;
  }

  go_live-Keeps : Keeps P go_live
  unfolding go_live
  go_live-Keeps = record { at = λ c h. framed.place c c.seq Mode.live h }

  decide-Keeps : {D E : Type 0} (f : Mode → D × Mode) → Keeps {E = E} P (decide f)
  unfolding decide
  decide-Keeps f = record { at = λ c h. framed.place c c.seq (f c.mode).1 h }

  take_seq-Keeps : Keeps P take_seq
  unfolding take_seq Seq.next
  take_seq-Keeps = record {
    at = λ c h. elim (Bool-cases (ltb c.seq u64_max)) [
      | inl e ↦ rw (e, take_seq) (framed.place c _ c.mode h)
      | inr e ↦ rw (e, take_seq) h
    ];
  }

  ruleset keeps_rules = (
    Keeps-pure, Keeps-lift, Keeps-bind, Keeps-as_step, append-Keeps, checkpoint-Keeps,
    read_clock-Keeps, draw-Keeps, wait-Keeps, run_body-Keeps, go_live-Keeps, decide-Keeps,
    take_seq-Keeps,
  )

  answer_now-Keeps : (n : Seq) (d : ReplayedEffect Timestamp) → Keeps P (answer_now store env n d)
  unfolding answer_now
  answer_now-Keeps n (recorded r) = search keeps_rules
  answer_now-Keeps n run_live = search keeps_rules depth 8

  pub resolve_now-Keeps : Keeps P (resolve_now store env)
  unfolding resolve_now
  resolve_now-Keeps = search (keeps_rules, answer_now-Keeps)

  answer_random-Keeps :
      (n : Seq) (d : ReplayedEffect RandomBytes) → Keeps P (answer_random store env n d)
  unfolding answer_random
  answer_random-Keeps n (recorded r) = search keeps_rules
  answer_random-Keeps n run_live = search keeps_rules depth 8

  pub resolve_random-Keeps : Keeps P (resolve_random store env)
  unfolding resolve_random
  resolve_random-Keeps = search (keeps_rules, answer_random-Keeps)

  fire-Keeps : (n : Seq) (deadline : Deadline) → Keeps P (fire store env n deadline)
  unfolding fire
  fire-Keeps n deadline = search keeps_rules depth 8

  answer_sleep-Keeps :
      (n : Seq) (deadline : Deadline) (d : SleepDecision)
      → Keeps P (answer_sleep store env n deadline d)
  unfolding answer_sleep
  answer_sleep-Keeps n deadline (Sleep.use_recorded r) = search keeps_rules
  answer_sleep-Keeps n deadline Sleep.rearm = search (keeps_rules, fire-Keeps)
  answer_sleep-Keeps n deadline Sleep.run_live = search (keeps_rules, fire-Keeps) depth 8

  pub resolve_sleep-Keeps : (deadline : Deadline) → Keeps P (resolve_sleep store env deadline)
  unfolding resolve_sleep
  resolve_sleep-Keeps deadline = search (keeps_rules, answer_sleep-Keeps)

  enter-Keeps :
      (n : Seq) (name : StepName) (entry : LiveEntry) → Keeps P (enter store env n name entry)
  unfolding enter
  enter-Keeps n name fresh = search keeps_rules depth 8
  enter-Keeps n name (retry k) = search keeps_rules

  record_outcome-Keeps :
      (n : Seq) (k : Attempt) (r : Result EventPayload StepErrorRecord)
      → Keeps P (record_outcome store env n k r)
  unfolding record_outcome
  record_outcome-Keeps n k (ok result) = search keeps_rules depth 10
  record_outcome-Keeps n k (err error) = search keeps_rules depth 10

  run_attempt-Keeps :
      (n : Seq) (f : StepBody W) (k : Attempt) → Keeps P (run_attempt store env n f k)
  unfolding run_attempt
  run_attempt-Keeps n f k = search (keeps_rules, record_outcome-Keeps) depth 10

  answer_step-Keeps :
      (n : Seq) (name : StepName) (f : StepBody W) (d : StepDecision)
      → Keeps P (answer_step store env n name f d)
  unfolding answer_step run_step_live
  answer_step-Keeps n name f (Step.use_recorded r) = search keeps_rules
  answer_step-Keeps n name f (Step.run_live entry) =
      search (keeps_rules, enter-Keeps, run_attempt-Keeps) depth 8

  pub resolve_step-Keeps :
      (name : StepName) (f : StepBody W) → Keeps P (resolve_step store env name f)
  unfolding resolve_step
  resolve_step-Keeps name f = search (keeps_rules, answer_step-Keeps) depth 8
