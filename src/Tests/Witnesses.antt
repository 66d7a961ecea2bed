-- ===== src/Tests/Witnesses.antt =====
-- The library's theorems on the runs above: a store in memory, a policy that dies after a charge.
use yaoki.Prelude.{
  ℕ, ◌+◌, ◌≤◌, All, [], ◌∷◌, ◌++◌, ◌≡◌, ◌↔◌, ◌⊎◌, subst, refl, inl, true, false, ok, err, some,
  none, if◌then◌else◌, ◌==◌, list_eq, nat_eq, length, take, drop, arith,
}
use yaoki.Text.{Text}
use yaoki.Step.{
  step_name, next_attempt, is_name_char, all_name_chars, attempt_number, first_attempt,
}
use yaoki.Seq
use yaoki.Journal.{
  JournalEvent, JournalError, Journal, execution_started, step_scheduled, step_started,
}
use yaoki.History.{scheduled, started, completed, scan, walk, advance}
use yaoki.Memory.{MemoryJournal}
use yaoki.Memory
use yaoki.Memory.Contract.{memory_contract, journal_of}
use yaoki.Memory.Laws.{load-append, acquire-acquire}
use yaoki.Context.State.{
  WorkflowCtx, replaying, healthy, unconsumed_history, faulted, live, existing_execution,
}
use yaoki.Context.Cursor
use yaoki.Context.Cursor.{ReplayCursor}
use yaoki.Context.Legality.{Synced}
use yaoki.Context.Keeps.{Keeps}
use yaoki.Context.Commands.{Stands, now-Stands, random-Stands, sleep_until-Stands, step-Stands}
use yaoki.Context.Now.{now}
use yaoki.Context.Random.{random}
use yaoki.Context.Sleep.{sleep_until}
use yaoki.Context.Step.{StepBody, step, skip_attempts}
use yaoki.Context.Step.Attempts.{Stopped, skip_attempts-Stopped}
use yaoki.Context.Step.Fuel.{PastAttempts, skip_attempts-PastAttempts}
use yaoki.Engine.Workflow.{execute}
use yaoki.Engine.Run.{RunError, run, recover_and_run}
use yaoki.Engine.Streams.{EmptyOrReadable}
use yaoki.Engine.Start.{Safe, run-Safe}
use yaoki.Engine.Recovery.{recover_and_run-Safe}
use yaoki.Engine.Fault.{execute-faulted, refused}
use yaoki.Engine.Recorded.{Recorded}
use yaoki.Engine.Answers.{run-Recorded, recover_and_run-Recorded}
use yaoki.Engine.Once.{run_existing, recover_and_run-ended}
use yaoki.Engine.Durable.{recover_and_run-run}
use yaoki.Codec.{JournalEventRecord, Messages, to_record, from_record}
use yaoki.Journal.WellFormed.{IsWellFormed}
use yaoki.Codec.RoundTrip.{from_record-to_record, from_record-IsWellFormed}
use yaoki.Equivalence.{EffectRecord, single_adjacent_duplicate}
use yaoki.Equivalence.Duplicate.{DuplicatesOne, single_adjacent_duplicate_iff}
use yaoki.Equivalence.Retries.{ordered_retries}
use yaoki.Equivalence.FirstAppearances.{UniqueKeys, first_appearances}
use yaoki.Equivalence.Ordered.{ordered_retries_iff}
use yaoki.History.Bounds.{IsNumbered, scan-IsNumbered}
use yaoki.History.Order.{commands, count_from, scan-commands}
use yaoki.Time.Clock.{Os, Passes, system_now, system_sleep_until, system_sleep_until-now}
use yaoki.Context.Step.Replayed.{Ahead, behind, step-replayed}
use yaoki.Tests.{
  World, environment, world, charge_renewal, charge_renewal-step_name, deadline, renewal, workflow,
  id, died, healed, calm, finished, finished_run, uncut, cut, whole,
}

-- Nothing is recorded yet.
unrecorded : EmptyOrReadable (journal_of Memory.new id)
unfolding Memory.new
unrecorded = inl refl

-- The run that is not cut returns an output.
run-Recorded_example : scan (journal_of finished.1 id) ≡ ok (completed (1 ∷ []))
run-Recorded_example =
    subst (λ r. Recorded workflow r (journal_of finished.1 id)) finished_run.0
      (run-Recorded memory_contract environment workflow id (3 ∷ []) Memory.new calm unrecorded)

recover_and_run-Recorded_example : Recorded workflow healed.0 (journal_of healed.1 id)
recover_and_run-Recorded_example =
    recover_and_run-Recorded memory_contract environment workflow id died.1 died.2

run-Safe_example : Safe memory_contract id Memory.new died.1
run-Safe_example =
    run-Safe memory_contract environment workflow (3 ∷ []) id Memory.new world unrecorded

recover_and_run-Safe_example : Safe memory_contract id died.1 healed.1
recover_and_run-Safe_example =
    recover_and_run-Safe memory_contract environment workflow id died.1 died.2
      run-Safe_example.readable

recover_and_run-run_example :
    recover_and_run Memory.memory environment id workflow finished.1 world
    ≡ (ok (1 ∷ []), Memory.release id (Memory.load id (Memory.acquire id finished.1).1).1, world)
recover_and_run-run_example =
    recover_and_run-run memory_contract environment workflow (3 ∷ []) id Memory.new calm (1 ∷ [])
      uncut environment world unrecorded finished_run.0 finished_run.1 finished_run.2

-- A store that holds a journal.
abbrev holding : Journal → MemoryJournal
holding events = record {
  executions = λ other. if other == id then some events else none;
  owners = λ other. false;
  executions_poisoned = false;
  owners_poisoned = false;
}

abbrev opened : Journal → MemoryJournal
opened events = (Memory.memory.acquire id (holding events)).1

run_existing_example : run Memory.memory environment id workflow (3 ∷ []) (holding cut) world ≡ (
  err (RunError.engine (existing_execution id)),
  Memory.release id (Memory.load id (opened cut)).1,
  world,
)
unfolding Memory.acquire Memory.load
run_existing_example =
    run_existing Memory.memory environment workflow id (holding cut) world (3 ∷ [])
      (execution_started workflow.name workflow.version (3 ∷ [])) _ refl refl

recover_and_run-ended_example :
    recover_and_run Memory.memory environment id workflow (holding whole) world
    ≡ (ok (1 ∷ []), Memory.release id (Memory.load id (opened whole)).1, world)
unfolding Memory.acquire Memory.load scan walk advance Seq.next next_attempt
recover_and_run-ended_example =
    recover_and_run-ended Memory.memory environment workflow id (holding whole) world (3 ∷ []) _
      (completed (1 ∷ [])) refl refl refl refl

-- A charge as a step body.
abbrev charge : StepBody World
charge key w = (ok (key.seq ∷ []), record w { charges = w.charges + 1 })

step-Stands_example :
    Keeps (Stands memory_contract) (step Memory.memory environment charge_renewal charge)
step-Stands_example =
    step-Stands memory_contract environment charge_renewal charge charge_renewal-step_name

sleep_until-Stands_example :
    Keeps (Stands memory_contract) (sleep_until Memory.memory environment deadline)
sleep_until-Stands_example = sleep_until-Stands memory_contract environment deadline

now-Stands_example : Keeps (Stands memory_contract) (now Memory.memory environment)
now-Stands_example = now-Stands memory_contract environment

random-Stands_example : Keeps (Stands memory_contract) (random Memory.memory environment)
random-Stands_example = random-Stands memory_contract environment

-- A context whose replay has diverged.
abbrev faulty : WorkflowCtx MemoryJournal World
faulty = record {
  store = holding cut;
  world = world;
  execution = id;
  seq = 1;
  mode = live;
  health = faulted unconsumed_history;
}

execute-faulted_example :
    execute Memory.memory environment (renewal (3 ∷ [])) faulty
    ≡ (refused Memory.memory environment unconsumed_history (renewal (3 ∷ [])), faulty)
execute-faulted_example =
    execute-faulted Memory.memory environment faulty unconsumed_history (renewal (3 ∷ [])) refl

-- Behind the schedule of the step that the first run began, with its attempt ahead.
abbrev behind_schedule : ReplayCursor
behind_schedule = record { source = Cursor.validated (record { journal = cut }); position = 3 }

behind_schedule-Synced : Synced cut (scheduled 1) behind_schedule
unfolding scan walk advance Seq.next next_attempt
behind_schedule-Synced = record {
  done = take 3 cut;
  rest = step_started 1 1 ∷ [];
  whole = refl;
  stored = refl;
  place = refl;
  read = refl;
  legal = (started 1 1, refl);
}

skip_attempts-Stopped_example : Stopped cut 1 (skip_attempts 4 behind_schedule (ok first_attempt))
skip_attempts-Stopped_example =
    skip_attempts-Stopped cut 4 1 (scheduled 1) behind_schedule (ok first_attempt)
      behind_schedule-Synced (refl, refl)

skip_attempts-PastAttempts_example :
    PastAttempts (skip_attempts 1 behind_schedule (ok first_attempt))
skip_attempts-PastAttempts_example =
    skip_attempts-PastAttempts 1 behind_schedule (ok first_attempt) (omega arith)

abbrev messages : Messages
messages = record {
  of_name = λ e. [];
  of_version = λ e. [];
  of_step = λ e. [];
  of_attempt = λ e. [];
}

from_record-to_record_example :
    from_record messages (to_record (step_scheduled 1 charge_renewal))
    ≡ ok (step_scheduled 1 charge_renewal)
unfolding step_name yaoki.Text.trim yaoki.Text.is_whitespace all_name_chars is_name_char
from_record-to_record_example =
    from_record-to_record messages (step_scheduled 1 charge_renewal) refl

from_record-IsWellFormed_example :
    IsWellFormed (JournalEvent.step_failed 1 2 (record { message = [] }))
unfolding from_record attempt_number
from_record-IsWellFormed_example =
    from_record-IsWellFormed messages (JournalEventRecord.step_failed 1 2 []) refl

load-append_example :
    (Memory.load id (Memory.append id (step_started 1 2) (holding cut)).1).0
    ≡ (if id == id then ok (cut ++ step_started 1 2 ∷ []) else (Memory.load id (holding cut)).0)
load-append_example = load-append id id (step_started 1 2) (holding cut) refl

acquire-acquire_example :
    ((Memory.acquire id (opened cut)).0 ≡ err (JournalError.execution_owned id))
    × ((Memory.acquire id (Memory.release id (opened cut))).0 ≡ ok tt)
unfolding Memory.acquire
acquire-acquire_example = acquire-acquire id (holding cut) refl

-- A charge, and a receipt that was observed twice.
abbrev effect : ℕ → EffectRecord
effect n = record {
  operation = record { execution = id; seq = n };
  step = charge_renewal;
  payload = n ∷ [];
}

single_adjacent_duplicate_iff_example :
    (single_adjacent_duplicate (effect 0 ∷ effect 1 ∷ effect 1 ∷ []) (effect 0 ∷ effect 1 ∷ [])
      ≡ true)
    ↔ ((effect 0 ∷ effect 1 ∷ effect 1 ∷ [] ≡ effect 0 ∷ effect 1 ∷ [])
        ⊎ DuplicatesOne (effect 0 ∷ effect 1 ∷ effect 1 ∷ []) (effect 0 ∷ effect 1 ∷ []))
single_adjacent_duplicate_iff_example =
    single_adjacent_duplicate_iff (effect 0 ∷ effect 1 ∷ effect 1 ∷ []) (effect 0 ∷ effect 1 ∷ [])

-- The charge once more behind the receipt.
ordered_retries_iff_example :
    (ordered_retries (effect 0 ∷ effect 1 ∷ effect 0 ∷ []) (effect 0 ∷ effect 1 ∷ []) ≡ true) ↔ (
      UniqueKeys (effect 0 ∷ effect 1 ∷ [])
      × (first_appearances [] (effect 0 ∷ effect 1 ∷ effect 0 ∷ []) ≡ effect 0 ∷ effect 1 ∷ []))
ordered_retries_iff_example =
    ordered_retries_iff (effect 0 ∷ effect 1 ∷ effect 0 ∷ []) (effect 0 ∷ effect 1 ∷ [])

scan-IsNumbered_example : All IsNumbered whole
unfolding scan walk advance Seq.next next_attempt
scan-IsNumbered_example = scan-IsNumbered whole (completed (1 ∷ [])) refl

scan-commands_example : commands whole ≡ count_from 0 (length (commands whole))
unfolding scan walk advance Seq.next next_attempt
scan-commands_example = scan-commands whole (completed (1 ∷ [])) refl

-- A world that is its own clock.
abbrev machine : Os ℕ
machine = record { since_epoch = λ w. some w; sleep = λ millis w. w + millis }

machine-Passes : Passes machine
machine-Passes millis reading w h = let same : w ≡ reading = cc h in omega (arith, same)

system_sleep_until-now_example :
    (90 ≤ system_now machine (system_sleep_until machine 90 5))
    × (90 ≤ system_now machine 5 → system_sleep_until machine 90 5 ≡ 5)
unfolding system_sleep_until
system_sleep_until-now_example =
    system_sleep_until-now machine 90 5 5 machine-Passes refl (omega arith) (omega arith)

-- A recovered context in front of the charge, which was tried twice.
abbrev before_charge : ReplayCursor
before_charge = record { source = Cursor.validated (record { journal = whole }); position = 2 }

abbrev resumed : WorkflowCtx MemoryJournal World
resumed = record {
  store = holding whole;
  world = world;
  execution = id;
  seq = 1;
  mode = replaying before_charge;
  health = healthy;
}

step-replayed_example :
    (cursor' : ReplayCursor) × Ahead cursor' (drop 6 whole)
    × (step Memory.memory environment charge_renewal charge resumed
        ≡ (ok (1 ∷ []), behind Memory.memory environment resumed cursor'))
step-replayed_example =
    step-replayed Memory.memory environment resumed charge_renewal charge before_charge 1 1 2
      ((1, 1) ∷ (1, 2) ∷ []) (ok (1 ∷ [])) (drop 6 whole) refl refl (omega arith) refl
