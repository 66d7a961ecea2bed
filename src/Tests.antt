-- ===== src/Tests.antt =====
-- Concrete runs: a store in memory, a clock that counts its readings, a policy that dies between a
-- step's effect and its record, and a workflow that reads the clock, charges and sleeps.
pub mod Disk
pub mod Json
pub mod Files
pub mod Witnesses
pub mod Replays
use yaoki.Prelude.{
  ℕ, suc, ◌+◌, List, [], ◌∷◌, ◌++◌, ◌≡◌, refl, inl, inr, Bool, true, false, Result, ok, err, some,
  none, if◌then◌else◌, ◌==◌,
}
use yaoki.Text.{Text}
use yaoki.Execution.{ExecutionId, WorkflowErrorRecord, workflow_name, workflow_version}
use yaoki.Step.{step_name, all_name_chars, is_name_char}
use yaoki.Time.{Deadline}
use yaoki.Journal.{
  JournalError, JournalEvent, Journal, EventPayload, execution_started, step_scheduled,
  step_started, step_completed, now_recorded, timer_scheduled, timer_fired, execution_completed,
}
use yaoki.Failpoints.{
  CrashPoint, FailpointDecision, continue, crash, never_crash, crash_once, CrashOnce, crash_once_at,
  after_side_effect,
}
use yaoki.Memory.{MemoryJournal}
use yaoki.Memory
use yaoki.Memory.Contract.{memory_contract, journal_of}
use yaoki.Context.State.{
  WorkflowCtx, Environment, EngineError, injected_crash, faulted, existing_execution,
}
use yaoki.Context.State
use yaoki.Context.Cursor
use yaoki.Engine.Workflow.{Program, Workflow}
use yaoki.Engine.Workflow
use yaoki.Equivalence.{EffectRecord}
use yaoki.Equivalence.Retries.{get, index_operations, match_retries, ordered_retries}
use yaoki.Engine.Run.{RunError, Outcome, run, recover_and_run}

-- The world: the next reading of the clock, the armed policy and the charges that were made.
pub record World : Type 0 where
  pub clock : ℕ
  pub policy : CrashOnce
  pub charges : ℕ

-- The clock advances with each reading, and a wait arrives at its deadline.
abbrev pub environment : Environment World
environment = record {
  now = λ w. (w.clock, record w { clock = w.clock + 1 });
  sleep_until = λ t w. record w { clock = t };
  next_bytes = λ w. (7 ∷ [], w);
  at = λ point w.
      let (decision, policy) = crash_once_at point w.policy in
      (decision, record w { policy = policy });
}

-- Dies once between the charge and its record.
abbrev pub world : World
world = record { clock = 5; policy = crash_once (after_side_effect 1); charges = 0 }

abbrev pub charge_renewal : Text
charge_renewal = b'c' ∷ b'h' ∷ []

pub charge_renewal-step_name : step_name charge_renewal ≡ ok charge_renewal
unfolding step_name yaoki.Text.trim yaoki.Text.is_whitespace all_name_chars is_name_char
charge_renewal-step_name = refl

abbrev pub deadline : Deadline
deadline = record { timestamp = 90 }

-- Reads the clock, charges and sleeps.
abbrev pub renewal : EventPayload → Program World ℕ
renewal input = Workflow.now λ reading.
    Workflow.step charge_renewal charge_renewal-step_name
      (λ key w. (ok (key.seq ∷ []), record w { charges = w.charges + 1 }))
      λ charged. Workflow.sleep_until deadline λ slept. Workflow.finish (conclusion charged)
  where
    conclusion : Result EventPayload State.StepError → Result EventPayload ℕ
    conclusion (ok receipt) = ok receipt
    conclusion (err error) = err 1

pub workflow_names :
    (workflow_name (b'w' ∷ []) ≡ ok (b'w' ∷ [])) × (workflow_version (b'1' ∷ []) ≡ ok (b'1' ∷ []))
unfolding workflow_name workflow_version yaoki.Text.trim yaoki.Text.is_whitespace
workflow_names = (refl, refl)

abbrev pub workflow : Workflow World ℕ
workflow = record {
  name = b'w' ∷ [];
  version = b'1' ∷ [];
  name_ok = workflow_names.0;
  version_ok = workflow_names.1;
  run = renewal;
  debug = λ e. e ∷ [];
}

abbrev pub id : ExecutionId
id = 1 ∷ []

-- The run that dies, and what it leaves.
abbrev pub died : Outcome MemoryJournal World ℕ
died = run Memory.memory environment id workflow (3 ∷ []) Memory.new world

-- The recovery that follows.
abbrev pub healed : Outcome MemoryJournal World ℕ
healed = recover_and_run Memory.memory environment id workflow died.1 died.2

-- The journal that the first run leaves, and that of the second.
abbrev pub cut : Journal
cut =
    execution_started (b'w' ∷ []) (b'1' ∷ []) (3 ∷ [])
    ∷ now_recorded 0 5
    ∷ step_scheduled 1 charge_renewal
    ∷ step_started 1 1
    ∷ []

abbrev pub whole : Journal
whole =
    cut
    ++ step_started 1 2
      ∷ step_completed 1 (1 ∷ [])
      ∷ timer_scheduled 2 deadline
      ∷ timer_fired 2
      ∷ execution_completed (1 ∷ [])
      ∷ []

-- The first run dies after the charge, so the second charges again, fires the timer and completes,
-- with the clock reading and the step's schedule of the first.
runs :
    (died.0 ≡ err (RunError.engine (injected_crash (after_side_effect 1))))
    × (journal_of died.1 id ≡ cut)
    × (healed.0 ≡ ok (1 ∷ []))
    × (journal_of healed.1 id ≡ whole)
    × (healed.2.charges ≡ 2)
unfolding run recover_and_run yaoki.Engine.Lifecycle.new Memory.acquire Memory.new
    yaoki.Engine.Lifecycle.start Memory.load Memory.append State.ensure_healthy Workflow.execute
    yaoki.Context.Sleep.sleep_until yaoki.Context.Monad.healthy_only yaoki.Context.Step.step
    yaoki.Context.Now.now State.new yaoki.Context.Monad.retain yaoki.Context.Monad.◌>>=◌
    yaoki.Context.Monad.take_seq yaoki.Seq.next Cursor.advance Cursor.is_exhausted Cursor.new
    Cursor.peek yaoki.Context.Monad.append yaoki.Context.Monad.as_step
    yaoki.Context.Monad.checkpoint yaoki.Context.Monad.decide yaoki.Context.Monad.diverged
    yaoki.Context.Monad.draw yaoki.Context.Monad.go_live yaoki.Context.Monad.lift
    yaoki.Context.Monad.pure yaoki.Context.Monad.read_clock yaoki.Context.Monad.retain_engine_result
    yaoki.Context.Monad.retain_step_result yaoki.Context.Monad.wait yaoki.Context.Now.answer_now
    yaoki.Context.Now.decide_now yaoki.Context.Now.match_now yaoki.Context.Now.resolve_now
    yaoki.Context.Sleep.answer_sleep yaoki.Context.Sleep.decide_sleep yaoki.Context.Sleep.fire
    yaoki.Context.Sleep.match_fired yaoki.Context.Sleep.match_timer
    yaoki.Context.Sleep.resolve_sleep State.ensure_replay_complete yaoki.Context.Step.answer_step
    yaoki.Context.Step.decide_step yaoki.Context.Step.enter yaoki.Context.Step.match_outcome
    yaoki.Context.Step.match_step yaoki.Context.Step.record_outcome
    yaoki.Context.Step.replay_step_outcome yaoki.Context.Step.resolve_step
    yaoki.Context.Step.run_attempt yaoki.Context.Step.run_body yaoki.Context.Step.run_step_live
    yaoki.Context.Step.skip_attempts yaoki.Engine.Lifecycle.complete
    yaoki.Engine.Lifecycle.start_loaded yaoki.Engine.Run.conclude yaoki.Engine.Run.finish
    yaoki.Engine.Run.run_created yaoki.Engine.Run.settle Memory.update Memory.release
    yaoki.Step.next_attempt yaoki.Engine.Lifecycle.recover yaoki.Engine.Lifecycle.recover_owned
    yaoki.Engine.Lifecycle.recover_from yaoki.Engine.Lifecycle.recovered
    yaoki.Engine.Invocation.parse yaoki.Engine.Invocation.select yaoki.Engine.Invocation.any_start
    yaoki.Engine.Invocation.read_start yaoki.Engine.Invocation.is_execution_start
    yaoki.History.parse yaoki.History.scan yaoki.History.walk yaoki.History.advance
    yaoki.History.into_recovery Cursor.from_history crash_once_at crash_once
    yaoki.Failpoints.point_beq yaoki.Engine.Run.resume yaoki.Engine.Run.resume_result
runs = (refl, refl, refl, refl, refl)

-- A run that no crash cuts short, and the stream taken over after it.
abbrev pub calm : World
calm = record {
  clock = 5;
  policy = record { target = after_side_effect 1; fired = true };
  charges = 0;
}

abbrev pub finished : Outcome MemoryJournal World ℕ
finished = run Memory.memory environment id workflow (3 ∷ []) Memory.new calm

abbrev pub taken_over : Result (Unit {0}) JournalError × MemoryJournal
taken_over = Memory.memory.acquire id finished.1

abbrev pub uncut : Journal
uncut =
    cut
    ++ step_completed 1 (1 ∷ [])
      ∷ timer_scheduled 2 deadline
      ∷ timer_fired 2
      ∷ execution_completed (1 ∷ [])
      ∷ []

pub finished_run :
    (finished.0 ≡ ok (1 ∷ []))
    × (taken_over.0 ≡ ok tt)
    × ((Memory.memory.load id taken_over.1).0 ≡ ok uncut)
unfolding run recover_and_run yaoki.Engine.Lifecycle.new Memory.acquire Memory.new
    yaoki.Engine.Lifecycle.start Memory.load Memory.append State.ensure_healthy Workflow.execute
    yaoki.Context.Sleep.sleep_until yaoki.Context.Monad.healthy_only yaoki.Context.Step.step
    yaoki.Context.Now.now State.new yaoki.Context.Monad.retain yaoki.Context.Monad.◌>>=◌
    yaoki.Context.Monad.take_seq yaoki.Seq.next Cursor.advance Cursor.is_exhausted Cursor.new
    Cursor.peek yaoki.Context.Monad.append yaoki.Context.Monad.as_step
    yaoki.Context.Monad.checkpoint yaoki.Context.Monad.decide yaoki.Context.Monad.diverged
    yaoki.Context.Monad.draw yaoki.Context.Monad.go_live yaoki.Context.Monad.lift
    yaoki.Context.Monad.pure yaoki.Context.Monad.read_clock yaoki.Context.Monad.retain_engine_result
    yaoki.Context.Monad.retain_step_result yaoki.Context.Monad.wait yaoki.Context.Now.answer_now
    yaoki.Context.Now.decide_now yaoki.Context.Now.match_now yaoki.Context.Now.resolve_now
    yaoki.Context.Sleep.answer_sleep yaoki.Context.Sleep.decide_sleep yaoki.Context.Sleep.fire
    yaoki.Context.Sleep.match_fired yaoki.Context.Sleep.match_timer
    yaoki.Context.Sleep.resolve_sleep State.ensure_replay_complete yaoki.Context.Step.answer_step
    yaoki.Context.Step.decide_step yaoki.Context.Step.enter yaoki.Context.Step.match_outcome
    yaoki.Context.Step.match_step yaoki.Context.Step.record_outcome
    yaoki.Context.Step.replay_step_outcome yaoki.Context.Step.resolve_step
    yaoki.Context.Step.run_attempt yaoki.Context.Step.run_body yaoki.Context.Step.run_step_live
    yaoki.Context.Step.skip_attempts yaoki.Engine.Lifecycle.complete
    yaoki.Engine.Lifecycle.start_loaded yaoki.Engine.Run.conclude yaoki.Engine.Run.finish
    yaoki.Engine.Run.run_created yaoki.Engine.Run.settle Memory.update Memory.release
    yaoki.Step.next_attempt yaoki.Engine.Lifecycle.recover yaoki.Engine.Lifecycle.recover_owned
    yaoki.Engine.Lifecycle.recover_from yaoki.Engine.Lifecycle.recovered
    yaoki.Engine.Invocation.parse yaoki.Engine.Invocation.select yaoki.Engine.Invocation.any_start
    yaoki.Engine.Invocation.read_start yaoki.Engine.Invocation.is_execution_start
    yaoki.History.parse yaoki.History.scan yaoki.History.walk yaoki.History.advance
    yaoki.History.into_recovery Cursor.from_history crash_once_at crash_once
    yaoki.Failpoints.point_beq yaoki.Engine.Run.resume yaoki.Engine.Run.resume_result
finished_run = (refl, refl, refl)

-- A charge and a receipt, and the charge again.
abbrev charge_effect : EffectRecord
charge_effect = record {
  operation = record { execution = id; seq = 1 };
  step = charge_renewal;
  payload = 1 ∷ [];
}

abbrev receipt_effect : EffectRecord
receipt_effect = record {
  operation = record { execution = id; seq = 2 };
  step = charge_renewal;
  payload = 2 ∷ [];
}

-- A retry may follow later effects; an effect that is missing, or a key that is reused, is refused.
retries :
    (ordered_retries
        (charge_effect ∷ receipt_effect ∷ charge_effect ∷ [])
        (charge_effect ∷ receipt_effect ∷ [])
      ≡ true)
    × (ordered_retries (charge_effect ∷ []) (charge_effect ∷ receipt_effect ∷ []) ≡ false)
    × (ordered_retries (receipt_effect ∷ charge_effect ∷ []) (charge_effect ∷ receipt_effect ∷ [])
        ≡ false)
    × (ordered_retries (charge_effect ∷ []) (charge_effect ∷ charge_effect ∷ []) ≡ false)
unfolding ordered_retries index_operations match_retries get
retries = (refl, refl, refl, refl)
