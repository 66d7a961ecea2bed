-- ===== src/Context/Step/Replayed.antt =====
-- A step of src/context.rs whose outcome is recorded.
use yaoki.Prelude.{
  ℕ, zero, suc, ◌+◌, ◌≤◌, ◌<◌, List, [], ◌∷◌, ◌++◌, ◌≡◌, refl, ◌∙◌, ap, some, Result, ok, err,
  length, drop, drop-drop, length-drop, length-append, get_elem?, get_elem?-drop, leb, ltb, true,
  false, list_eq, nat_eq, beq_refl, arith,
}
use yaoki.Seq
use yaoki.Seq.{Seq, u64_max}
use yaoki.Step.{StepName, Attempt, StepErrorRecord, AttemptOverflow, next_attempt, first_attempt}
use yaoki.Journal.{
  JournalEvent, EventPayload, step_scheduled, step_started, step_completed, step_failed,
}
use yaoki.Journal.Store.{JournalStore}
use yaoki.Context.Cursor
use yaoki.Context.Cursor.{ReplayCursor}
use yaoki.Context.State.{WorkflowCtx, Environment, StepError, failed, replaying}
use yaoki.Context.Monad.{◌>>=◌, continue_with, as_step, take_seq, decide, lift, retain_step_result}
use yaoki.Context.Commands.{IsHealthy, step-healthy}
use yaoki.Context.Step.{
  StepBody, recorded, use_recorded, skip_attempts, match_outcome, replay_step_outcome, match_step,
  decide_step, answer_step, resolve_step, step,
}

-- The events that the cursor has not consumed.
abbrev pub Ahead : ReplayCursor → List JournalEvent → Type 0
Ahead cursor rest = drop cursor.position (Cursor.events cursor) ≡ rest

-- The record of an outcome, and what `step` returns for it.
abbrev pub outcome_event : Seq → Attempt → Result EventPayload StepErrorRecord → JournalEvent
outcome_event seq number (ok result) = step_completed seq result
outcome_event seq number (err error) = step_failed seq number error

abbrev pub outcome : Result EventPayload StepErrorRecord → Result EventPayload StepError
outcome (ok result) = ok result
outcome (err error) = err (failed error)

-- The starts of attempts, with the positions and numbers that they record.
abbrev pub starts : List (Seq × Attempt) → List JournalEvent
starts [] = []
starts ((seq, number) ∷ attempts) = step_started seq number ∷ starts attempts

module _ (cursor : ReplayCursor) (event : JournalEvent) (rest : List JournalEvent)
    (ahead : Ahead cursor (event ∷ rest)) where
  pub peek-Ahead : Cursor.peek cursor ≡ some event
  unfolding Cursor.peek
  peek-Ahead =
      ap (get_elem? (Cursor.events cursor))
        (let e : cursor.position ≡ cursor.position + 0 = omega arith in e)
      ∙ get_elem?-drop cursor.position 0 (Cursor.events cursor)
      ∙ ap (λ t. get_elem? t 0) ahead

  pub advance-Ahead : Ahead (Cursor.advance cursor) rest
  unfolding Cursor.advance Cursor.is_exhausted
  advance-Ahead =
      rw
        (let t : leb (length (Cursor.events cursor)) cursor.position ≡ false =
            ground (arith, length-drop cursor.position (Cursor.events cursor), ap length ahead) in
          t)
        (drop-drop cursor.position 1 (Cursor.events cursor) ∙ ap (drop 1) ahead)

-- The loop over the attempts stops at the record of the outcome.
skip_attempts-Ahead :
    (fuel : ℕ) (cursor : ReplayCursor) (next : Result Attempt AttemptOverflow)
    (attempts : List (Seq × Attempt)) (m : Seq) (k : Attempt)
    (o : Result EventPayload StepErrorRecord) (rest : List JournalEvent)
    → length attempts ≤ fuel
    → Ahead cursor (starts attempts ++ outcome_event m k o ∷ rest)
    → Ahead (skip_attempts fuel cursor next).0 (outcome_event m k o ∷ rest)
unfolding skip_attempts
skip_attempts-Ahead zero cursor next [] m k o rest enough h = h
skip_attempts-Ahead zero cursor next (x ∷ attempts) m k o rest enough h =
    absurd (omega (arith, enough))
skip_attempts-Ahead (suc fuel) cursor next [] m k (ok result) rest enough h =
    rw (peek-Ahead cursor (step_completed m result) rest h, skip_attempts) h
skip_attempts-Ahead (suc fuel) cursor next [] m k (err error) rest enough h =
    rw (peek-Ahead cursor (step_failed m k error) rest h, skip_attempts) h
skip_attempts-Ahead (suc fuel) cursor next ((seq, number) ∷ attempts) m k o rest enough h =
    rw
      (
        peek-Ahead cursor (step_started seq number) (starts attempts ++ outcome_event m k o ∷ rest)
            h,
        skip_attempts,
      )
      (skip_attempts-Ahead fuel (Cursor.advance cursor) (next_attempt number) attempts m k o rest
        (omega (arith, enough))
        (advance-Ahead cursor (step_started seq number)
          (starts attempts ++ outcome_event m k o ∷ rest) h))

match_outcome-event :
    (seq : Seq) (cursor : ReplayCursor) (next : Result Attempt AttemptOverflow) (m : Seq)
    (k : Attempt) (o : Result EventPayload StepErrorRecord)
    → match_outcome seq cursor next (some (outcome_event m k o))
      ≡ (recorded (outcome o), Cursor.advance cursor)
unfolding match_outcome
match_outcome-event seq cursor (ok n) m k (ok result) = refl
match_outcome-event seq cursor (ok n) m k (err error) = refl
match_outcome-event seq cursor (err e) m k (ok result) = refl
match_outcome-event seq cursor (err e) m k (err error) = refl

length-starts : (attempts : List (Seq × Attempt)) → length (starts attempts) ≡ length attempts
length-starts [] = refl
length-starts (x ∷ attempts) = omega (arith, length-starts attempts)

-- The replay of the outcome behind the attempts.
replay-Ahead :
    (cursor : ReplayCursor) (seq : Seq) (attempts : List (Seq × Attempt)) (m : Seq) (k : Attempt)
    (o : Result EventPayload StepErrorRecord) (rest : List JournalEvent)
    → Ahead cursor (starts attempts ++ outcome_event m k o ∷ rest)
    → (cursor' : ReplayCursor) × Ahead cursor' rest
      × (replay_step_outcome cursor seq ≡ (recorded (outcome o), cursor'))
unfolding replay_step_outcome
replay-Ahead cursor seq attempts m k o rest h =
    let stop =
      skip_attempts-Ahead (length (Cursor.events cursor)) cursor (ok first_attempt) attempts m k o
        rest
        (omega (
          arith,
          ap length h,
          length-drop cursor.position (Cursor.events cursor),
          length-append (starts attempts) (outcome_event m k o ∷ rest),
          length-starts attempts,
        ))
        h in
    (
      Cursor.advance (skip_attempts (length (Cursor.events cursor)) cursor (ok first_attempt)).0,
      advance-Ahead _ (outcome_event m k o) rest stop,
      ap
            (match_outcome seq
              (skip_attempts (length (Cursor.events cursor)) cursor (ok first_attempt)).0
              (skip_attempts (length (Cursor.events cursor)) cursor (ok first_attempt)).1)
            (peek-Ahead _ (outcome_event m k o) rest stop)
          ∙ match_outcome-event seq _
              (skip_attempts (length (Cursor.events cursor)) cursor (ok first_attempt)).1 m k o,
    )

module _ {S W : Type 0} (store : JournalStore S) (env : Environment W) where
  -- The state behind a replayed step: only the position and the cursor have moved.
  abbrev pub behind : WorkflowCtx S W → ReplayCursor → WorkflowCtx S W
  behind c cursor = record c { seq = c.seq + 1; mode = replaying cursor }

  resolve-replayed :
      (c : WorkflowCtx S W) (name : StepName) (f : StepBody W) (cursor cursor' : ReplayCursor)
      (r : Result EventPayload StepError)
      → c.mode ≡ replaying cursor
      → c.seq < u64_max
      → decide_step c.seq name (replaying cursor) ≡ (use_recorded r, replaying cursor')
      → resolve_step store env name f c ≡ (r, behind c cursor')
  unfolding resolve_step ◌>>=◌ as_step take_seq Seq.next decide answer_step lift
  resolve-replayed c name f cursor cursor' r mode room decided =
      ap
        (λ x.
          continue_with x.0
            (λ seq. decide (decide_step seq name) >>= answer_step store env seq name f) x.1)
        taken
      ∙ ap
          (λ x.
            continue_with (ok x.0) (answer_step store env c.seq name f)
              (record c { seq = c.seq + 1; mode = x.1 }))
          (ap (decide_step c.seq name) mode ∙ decided)
    where
      taken : as_step (take_seq {S = S} {W = W}) c ≡ (ok c.seq, record c { seq = c.seq + 1 })
      taken = rw (let t : ltb c.seq u64_max ≡ true = ground (arith, room) in t, take_seq) refl

  decide-replayed :
      (seq s : Seq) (name : StepName) (cursor cursor' : ReplayCursor)
      (r : Result EventPayload StepError) (rest : List JournalEvent)
      → Ahead cursor (step_scheduled s name ∷ rest)
      → replay_step_outcome (Cursor.advance cursor) seq ≡ (recorded r, cursor')
      → decide_step seq name (replaying cursor) ≡ (use_recorded r, replaying cursor')
  unfolding decide_step match_step
  decide-replayed seq s name cursor cursor' r rest h replayed =
      rw (peek-Ahead cursor (step_scheduled s name) rest h, match_step)
        (rw (beq_refl name, replayed) refl)

  retain-replayed :
      (o : Result EventPayload StepErrorRecord) (c : WorkflowCtx S W)
      → retain_step_result (outcome o) c ≡ (outcome o, c)
  unfolding retain_step_result
  retain-replayed (ok result) c = refl
  retain-replayed (err error) c = refl

  -- A healthy context replays, its position is not the last, and ahead of its cursor are the schedule of a step, any
  -- number of started attempts and an outcome: `step` of that name then returns the recorded result or
  -- business failure. Its body is not run, the store and the world are not touched, and only the
  -- position and the cursor move, to what follows the outcome.
  pub step-replayed :
      (c : WorkflowCtx S W) (name : StepName) (f : StepBody W) (cursor : ReplayCursor) (s m : Seq)
      (k : Attempt) (attempts : List (Seq × Attempt)) (o : Result EventPayload StepErrorRecord)
      (rest : List JournalEvent)
      → IsHealthy c
      → c.mode ≡ replaying cursor
      → c.seq < u64_max
      → Ahead cursor (step_scheduled s name ∷ (starts attempts ++ outcome_event m k o ∷ rest))
      → (cursor' : ReplayCursor) × Ahead cursor' rest
        × (step store env name f c ≡ (outcome o, behind c cursor'))
  step-replayed c name f cursor s m k attempts o rest health mode room h =
      let later = starts attempts ++ outcome_event m k o ∷ rest in
      let (cursor', ahead, replayed) =
        replay-Ahead (Cursor.advance cursor) c.seq attempts m k o rest
          (advance-Ahead cursor (step_scheduled s name) later h) in
      let resolved =
        resolve-replayed c name f cursor cursor' (outcome o) mode room
          (decide-replayed c.seq s name cursor cursor' (outcome o) later h replayed) in
      (
        cursor',
        ahead,
        step-healthy store env c name f health
            ∙ ap (λ x. retain_step_result x.0 x.1) resolved
            ∙ retain-replayed o (behind c cursor'),
      )
