-- ===== src/Context/Monad.antt =====
-- Methods of the context as actions: a result, and the context with all that it has changed. What
-- was done before an error stays done. Here are the calls that the commands of src/context.rs make.
use yaoki.Prelude.{Result, ok, err, map_err, none, some}
use yaoki.Seq
use yaoki.Seq.{Seq, EventOffset}
use yaoki.Random.{RandomBytes}
use yaoki.Time.{Timestamp}
use yaoki.Journal.{JournalEvent, EventPayload, command_kind}
use yaoki.Journal.Store.{JournalStore}
use yaoki.Command.{CommandKind}
use yaoki.Failpoints.{CrashPoint, FailpointDecision, continue, crash}
use yaoki.Context.State.{
  WorkflowCtx, Environment, EngineError, nondeterminism, sequence, journal, injected_crash,
  StepError, failed, engine, Mode, live, healthy, faulted, ensure_healthy,
}

abbrev pub Action : Type 0 → Type 0 → Type 0 → Type 0 → Type 0
Action S W A E = WorkflowCtx S W → Result A E × WorkflowCtx S W

module _ {S W A E : Type 0} where
  unfoldable pub pure : A → Action S W A E
  pure a c = (ok a, c)

  unfoldable pub lift : Result A E → Action S W A E
  lift r c = (r, c)

module _ {S W A B E : Type 0} where
  abbrev pub continue_with : Result A E → (A → Action S W B E) → Action S W B E
  continue_with (ok a) f c = f a c
  continue_with (err e) f c = (err e, c)

  infixl 5 ◌>>=◌ ◌>>◌
  unfoldable pub ◌>>=◌ : Action S W A E → (A → Action S W B E) → Action S W B E
  ◌>>=◌ m f c = let (r, c') = m c in continue_with r f c'

  abbrev pub ◌>>◌ : Action S W A E → Action S W B E → Action S W B E
  m >> k = m >>= λ _. k

module _ {S W A : Type 0} where
  -- `?` on an engine error inside a step.
  unfoldable pub as_step : Action S W A EngineError → Action S W A StepError
  as_step m c = let (r, c') = m c in (map_err engine r, c')

  unfoldable pub healthy_only : Action S W A EngineError → Action S W A EngineError
  healthy_only m c = continue_with (ensure_healthy c) (λ _. m) c

  -- The first engine fault is retained, and stands for every later one.
  unfoldable pub retain_engine_result : Result A EngineError → Action S W A EngineError
  retain_engine_result (ok value) c = (ok value, c)
  retain_engine_result (err error) c = elim c.health [
    | healthy ↦ (err error, record c { health = faulted error })
    | faulted first ↦ (err first, c)
  ]

  unfoldable pub retain : Action S W A EngineError → Action S W A EngineError
  unfolding retain_engine_result
  retain m c = let (r, c') = m c in retain_engine_result r c'

-- A handled business failure leaves the context usable.
unfoldable pub retain_step_result :
    {S W : Type 0} → Result EventPayload StepError → Action S W EventPayload StepError
unfolding retain_engine_result as_step
retain_step_result (ok value) c = (ok value, c)
retain_step_result (err (failed error)) c = (err (failed error), c)
retain_step_result (err (engine error)) c = as_step (retain_engine_result (err error)) c

module _ {S W : Type 0} where
  -- `let seq = self.seq; self.seq = self.seq.next()?`
  unfoldable pub take_seq : Action S W Seq EngineError
  take_seq c = elim (Seq.next c.seq) [
    | ok seq' ↦ (ok c.seq, record c { seq = seq' })
    | err error ↦ (err (sequence error), c)
  ]

  -- A decision that may advance the cursor in the mode.
  unfoldable pub decide : {D E : Type 0} → (Mode → D × Mode) → Action S W D E
  decide f c = let (d, mode) = f c.mode in (ok d, record c { mode = mode })

-- The divergence report: `event.command_kind().unwrap_or(got)`.
unfoldable pub diverged : Seq → JournalEvent → CommandKind → EngineError
diverged seq event got = elim (command_kind event) [
  | some expected ↦ nondeterminism seq expected got
  | none ↦ nondeterminism seq got got
]

module _ {S W : Type 0} where
  unfoldable pub go_live : Action S W (Unit {0}) EngineError
  go_live c = (ok tt, record c { mode = live })

module _ {S W : Type 0} (store : JournalStore S) where
  -- `self.store.append(&self.execution, event).map_err(EngineError::from)?`
  unfoldable pub append : JournalEvent → Action S W EventOffset EngineError
  append event c =
      let (r, s) = store.append c.execution event c.store in
      (map_err journal r, record c { store = s })

abbrev pub decided : CrashPoint → FailpointDecision → Result (Unit {0}) EngineError
decided point continue = ok tt
decided point crash = err (injected_crash point)

module _ {S W : Type 0} (env : Environment W) where
  -- Leaves the journal as it is at the selected window.
  unfoldable pub checkpoint : CrashPoint → Action S W (Unit {0}) EngineError
  checkpoint point c =
      let (d, w) = env.at point c.world in (decided point d, record c { world = w })

  -- `self.clock.now()`
  unfoldable pub read_clock : Action S W Timestamp EngineError
  read_clock c = let (value, w) = env.now c.world in (ok value, record c { world = w })

  -- `self.rng.next_bytes()`
  unfoldable pub draw : Action S W RandomBytes EngineError
  draw c = let (value, w) = env.next_bytes c.world in (ok value, record c { world = w })

  -- `self.clock.sleep_until(deadline)`
  unfoldable pub wait : Timestamp → Action S W (Unit {0}) EngineError
  wait deadline c = (ok tt, record c { world = env.sleep_until deadline c.world })
