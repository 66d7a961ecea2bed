-- ===== src/Context/Step/Legality.antt =====
-- `step` of src/context.rs keeps the event grammar, from its decision on.
use yaoki.Prelude.{ℕ, ◌+◌, ◌<◌, ◌≡◌, refl, sym, Result, ok, err, subst, list_eq, nat_eq}
use yaoki.Seq.{Seq, u64_max}
use yaoki.Step.{StepName, Attempt, first_attempt, StepErrorRecord, attempt_number, step_name}
use yaoki.Journal.{
  EventPayload, JournalEvent, step_scheduled, step_started, step_completed, step_failed,
}
use yaoki.Journal.WellFormed.{IsWellFormed}
use yaoki.Journal.Store.{JournalStore, Contract}
use yaoki.History.{HistoryState, ready, scheduled, started, advance}
use yaoki.History.Advance.{
  Awaits, Awaits-valid, advance-scheduled, advance-started, advance-completed, advance-failed,
}
use yaoki.Failpoints.{
  before_step_scheduled, after_step_scheduled, after_step_started, after_side_effect,
  after_step_completed,
}
use yaoki.Context.State.{
  WorkflowCtx, Environment, EngineError, StepError, engine, Mode, replaying, live,
}
use yaoki.Context.State
use yaoki.Context.Monad.{as_step, take_seq, decide, go_live, append, checkpoint}
use yaoki.Context.Triple.{
  Triple, Triple-pure, Triple-lift, Triple-bind, Triple-given, Triple-assume, Triple-as_step,
}
use yaoki.Context.Legality.{Legal, At, Good, append-At, checkpoint-At}
use yaoki.Context.Replay.{Taken, Pending, take_seq-Taken, go_live-At, At-Good}
use yaoki.Context.Step.{
  StepBody, fresh, retry, StepDecision, use_recorded, run_live, decide_step, enter, run_body,
  record_outcome, run_attempt, run_step_live, answer_step, resolve_step,
}
use yaoki.Context.Step.Decision.{Failed, Decided, decided}

module _ {S W : Type 0} {store : JournalStore S} (contract : Contract store)
    (env : Environment W) where
  decide-Decided :
      (n : Seq) (name : StepName)
      → Triple
          (Taken contract n)
          (decide {S = S} {W = W} {E = StepError} (decide_step n name))
          (Decided contract n)
          (Failed contract)
  unfolding decide
  decide-Decided n name = record { at = λ c h. decided contract n name c c.mode h h.ready_in }

  -- An append inside a step.
  step_append :
      (state state' : HistoryState) (e : JournalEvent) (seq : Seq)
      → ((offset : ℕ) → advance state e offset ≡ ok state')
      → IsWellFormed e
      → Triple
          (At contract state seq)
          (as_step (append {W = W} store e))
          (λ _. At contract state' seq)
          (Failed contract)
  step_append state state' e seq a valid =
      Triple-as_step (append store e) (append-At contract env state state' e seq a valid)

  -- From a started attempt whose body has returned.
  record_outcome-Good :
      (n : Seq) (k : Attempt) (r : Result EventPayload StepErrorRecord)
      → n < u64_max
      → attempt_number k ≡ ok k
      → Triple
          (At contract (started n k) (n + 1))
          (record_outcome store env n k r)
          (λ _. Good contract)
          (Failed contract)
  unfolding record_outcome
  record_outcome-Good n k (ok result) room valid =
      Triple-bind (as_step (checkpoint env (after_side_effect n))) _
        (Triple-as_step _ (checkpoint-At contract env (started n k) (n + 1) (after_side_effect n)))
        λ _.
          Triple-bind (as_step (append store (step_completed n result))) _
            (step_append (started n k) (ready (n + 1)) (step_completed n result) (n + 1)
              (λ i. advance-completed n i room k result) tt)
            λ _.
              Triple-bind (as_step (checkpoint env (after_step_completed n))) _
                (Triple-as_step _
                  (checkpoint-At contract env (ready (n + 1)) (n + 1) (after_step_completed n)))
                λ _. Triple-pure result (At-Good contract n)
  record_outcome-Good n k (err error) room valid =
      Triple-bind (as_step (append store (step_failed n k error))) _
        (step_append (started n k) (ready (n + 1)) (step_failed n k error) (n + 1)
          (λ i. advance-failed n i room k error) valid)
        λ _. Triple-lift (err (State.failed error)) (At-Good contract n)

  run_body-At :
      (n : Seq) (k : Attempt) (f : StepBody W)
      → Triple
          (At contract (started n k) (n + 1))
          (run_body {S = S} {W = W} store env f n)
          (λ _. At contract (started n k) (n + 1))
          (λ (e : EngineError). Legal contract)
  unfolding run_body
  run_body-At n k f = record {
    at = λ c h. record { read = h.read; next = h.next; is_live = h.is_live };
  }

  -- From a state in which attempt `k` may start.
  attempt-Good :
      (state : HistoryState) (n : Seq) (k : Attempt) (f : StepBody W)
      → n < u64_max
      → Awaits state n k
      → Triple
          (At contract state (n + 1))
          (run_attempt store env n f k)
          (λ _. Good contract)
          (Failed contract)
  unfolding run_attempt
  attempt-Good state n k f room w =
      Triple-bind (as_step (append store (step_started n k))) _
        (step_append state (started n k) (step_started n k) (n + 1)
          (λ i. advance-started state n k i w) (Awaits-valid state n k w))
        λ _.
          Triple-bind (as_step (checkpoint env (after_step_started n))) _
            (Triple-as_step _
              (checkpoint-At contract env (started n k) (n + 1) (after_step_started n)))
            λ _.
              Triple-bind (as_step (run_body store env f n)) _
                (Triple-as_step _ (run_body-At n k f))
                λ r. record_outcome-Good n k r room (Awaits-valid state n k w)

  -- A fresh step is scheduled before its first attempt.
  enter_fresh-At :
      (n : Seq) (name : StepName)
      → step_name name ≡ ok name
      → n < u64_max
      → Triple
          (At contract (ready n) (n + 1))
          (as_step (enter store env n name fresh))
          (λ k c. (k ≡ first_attempt) × At contract (scheduled n) (n + 1) c)
          (Failed contract)
  unfolding enter
  enter_fresh-At n name valid room = Triple-as_step _ (
      Triple-bind (checkpoint env (before_step_scheduled n)) _
        (checkpoint-At contract env (ready n) (n + 1) (before_step_scheduled n))
        λ _.
          Triple-bind (append store (step_scheduled n name)) _
            (append-At contract env (ready n) (scheduled n) (step_scheduled n name) (n + 1)
              (λ i. advance-scheduled n i room name) valid)
            λ _.
              Triple-bind (checkpoint env (after_step_scheduled n)) _
                (checkpoint-At contract env (scheduled n) (n + 1) (after_step_scheduled n))
                λ _. Triple-pure first_attempt (λ c h. (refl, h)))

  -- A retry enters the journal without scheduling again.
  enter_retry-At :
      (state : HistoryState) (n : Seq) (name : StepName) (k : Attempt)
      → Triple
          (At contract state (n + 1))
          (as_step (enter store env n name (retry k)))
          (λ j c. (j ≡ k) × At contract state (n + 1) c)
          (Failed contract)
  unfolding enter
  enter_retry-At state n name k = Triple-as_step _ (Triple-pure k (λ c h. (refl, h)))

  answer-Good :
      (n : Seq) (name : StepName) (f : StepBody W) (d : StepDecision)
      → step_name name ≡ ok name
      → Triple
          (Decided contract n d)
          (answer_step store env n name f d)
          (λ _. Good contract)
          (Failed contract)
  unfolding answer_step run_step_live
  answer-Good n name f (use_recorded (ok value)) valid = Triple-lift (ok value) (λ c h. h)
  answer-Good n name f (use_recorded (err error)) valid = Triple-lift (err error) (λ c h. h)
  answer-Good n name f (run_live fresh) valid =
      Triple-given (λ c h. h.room)
        λ room.
          Triple-bind (as_step go_live) _ (Triple-as_step _ (go_live-At contract (ready n) n)) λ _.
            Triple-bind (as_step (enter store env n name fresh)) _
              (enter_fresh-At n name valid room)
              λ k.
                Triple-given (λ c h. h.0)
                  λ first.
                    Triple-assume (λ c h. h.1) (attempt-Good (scheduled n) n k f room (refl, first))
  answer-Good n name f (run_live (retry k)) valid = record {
    at = λ c (state, w, h). (retried state w h.room).at c h;
  }
    where
      retried :
          (state : HistoryState)
          → Awaits state n k
          → n < u64_max
          → Triple
              (Pending contract state n)
              (answer_step store env n name f (run_live (retry k)))
              (λ _. Good contract)
              (Failed contract)
      retried state w room =
          Triple-bind (as_step go_live) _ (Triple-as_step _ (go_live-At contract state n)) λ _.
            Triple-bind (as_step (enter store env n name (retry k))) _
              (enter_retry-At state n name k)
              λ j.
                Triple-given (λ c h. h.0)
                  λ same.
                    Triple-assume (λ c h. h.1)
                      (attempt-Good state n j f room (subst (Awaits state n) (sym same) w))

  pub resolve_step-Good :
      (name : StepName) (f : StepBody W)
      → step_name name ≡ ok name
      → Triple
          (Good contract)
          (resolve_step store env name f)
          (λ _. Good contract)
          (Failed contract)
  unfolding resolve_step
  resolve_step-Good name f valid =
      Triple-bind (as_step take_seq) _ (Triple-as_step _ (take_seq-Taken contract)) λ n.
        Triple-bind (decide (decide_step n name)) _ (decide-Decided n name)
          λ d. answer-Good n name f d valid
