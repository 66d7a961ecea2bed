-- ===== src/Context/Commands.antt =====
-- The commands of src/context.rs as a workflow sees them: the fault that a context retains, and the
-- grammar of its journal.
use yaoki.Prelude.{◌≡◌, refl, sym, subst, Result, ok, err}
use yaoki.Step.{StepName, step_name}
use yaoki.Time.{Deadline}
use yaoki.Journal.{EventPayload}
use yaoki.Journal.Store.{JournalStore, Contract}
use yaoki.Context.State.{
  WorkflowCtx, Environment, EngineError, StepError, failed, engine, ExecutionHealth, healthy,
  faulted, ensure_healthy,
}
use yaoki.Context.Monad.{Action, healthy_only, retain, retain_engine_result, retain_step_result}
use yaoki.Context.Triple.{Triple, Holds}
use yaoki.Context.Legality.{Legal, Good}
use yaoki.Context.Keeps.{
  Keeps, IsFramed, resolve_now-Keeps, resolve_random-Keeps, resolve_sleep-Keeps, resolve_step-Keeps,
}
use yaoki.Context.Now.{now, resolve_now}
use yaoki.Context.Now.Legality.{resolve_now-Good}
use yaoki.Context.Random.{random, resolve_random}
use yaoki.Context.Random.Legality.{resolve_random-Good}
use yaoki.Context.Sleep.{sleep_until, resolve_sleep}
use yaoki.Context.Sleep.Legality.{resolve_sleep-Good}
use yaoki.Context.Step.{StepBody, step, resolve_step}
use yaoki.Context.Step.Decision.{Failed}
use yaoki.Context.Step.Legality.{resolve_step-Good}

-- The context is not faulted.
abbrev pub IsHealthy : {S W : Type 0} → WorkflowCtx S W → Type 0
IsHealthy c = c.health ≡ healthy

IsHealthy-IsFramed : {S W : Type 0} (store : JournalStore S) → IsFramed {W = W} store IsHealthy
IsHealthy-IsFramed store = record {
  world = λ c w h. h;
  place = λ c n mode h. h;
  write = λ c e h. h;
}

module _ {S W : Type 0} {store : JournalStore S} (contract : Contract store) where
  abbrev pub StandsIn : ExecutionHealth → WorkflowCtx S W → Type 0
  StandsIn healthy c = Good contract c
  StandsIn (faulted error) c = Legal contract c

  -- Between two commands: a healthy context may be given the next, a faulted one has a journal that
  -- can be read.
  abbrev pub Stands : WorkflowCtx S W → Type 0
  Stands c = StandsIn c.health c

  -- `Good` says nothing of the health.
  Good-Stands : (c : WorkflowCtx S W) → IsHealthy c → Good contract c → Stands c
  Good-Stands c e g = subst (λ h. StandsIn h c) (sym e) g

  retain-Stands :
      {A : Type 0} (r : Result A EngineError) (c : WorkflowCtx S W)
      → IsHealthy c
      → Holds (λ _. Good contract) (λ _. Legal contract) r c
      → Stands (retain_engine_result r c).1
  unfolding retain_engine_result
  retain-Stands (ok a) c e h = Good-Stands c e h
  retain-Stands (err x) c e h = rw (e, retain_engine_result) h

  retain_step-Stands :
      (r : Result EventPayload StepError) (c : WorkflowCtx S W)
      → IsHealthy c
      → Holds (λ _. Good contract) (Failed contract) r c
      → Stands (retain_step_result r c).1
  unfolding retain_step_result
  retain_step-Stands (ok a) c e h = Good-Stands c e h
  retain_step-Stands (err (failed x)) c e h = Good-Stands c e h
  retain_step-Stands (err (engine x)) c e h = retain-Stands {A = EventPayload} (err x) c e h

pub ensure_healthy_ok :
    {S W : Type 0} (c : WorkflowCtx S W) → IsHealthy c → ensure_healthy c ≡ ok tt
unfolding ensure_healthy
ensure_healthy_ok c e = rw (e, ensure_healthy)

pub ensure_healthy_err :
    {S W : Type 0} (c : WorkflowCtx S W) {error : EngineError}
    → c.health ≡ faulted error
    → ensure_healthy c ≡ err error
unfolding ensure_healthy
ensure_healthy_err c e = rw (e, ensure_healthy)

module _ {S W A : Type 0} (m : Action S W A EngineError) (c : WorkflowCtx S W) where
  healthy_only-healthy : IsHealthy c → healthy_only m c ≡ m c
  unfolding healthy_only ensure_healthy
  healthy_only-healthy e = rw (e, ensure_healthy)

  healthy_only-faulted :
      {error : EngineError} → c.health ≡ faulted error → healthy_only m c ≡ (err error, c)
  unfolding healthy_only ensure_healthy
  healthy_only-faulted e = rw (e, ensure_healthy)

module _ {S W : Type 0} (store : JournalStore S) (env : Environment W) (c : WorkflowCtx S W)
    {error : EngineError} (e : c.health ≡ faulted error) where
  pub now-faulted : now store env c ≡ (err error, c)
  unfolding now
  now-faulted = healthy_only-faulted (retain (resolve_now store env)) c e

  pub random-faulted : random store env c ≡ (err error, c)
  unfolding random
  random-faulted = healthy_only-faulted (retain (resolve_random store env)) c e

  pub sleep_until-faulted :
      (deadline : Deadline) → sleep_until store env deadline c ≡ (err error, c)
  unfolding sleep_until
  sleep_until-faulted deadline =
      healthy_only-faulted (retain (resolve_sleep store env deadline)) c e

  pub step-faulted :
      (name : StepName) (f : StepBody W) → step store env name f c ≡ (err (engine error), c)
  unfolding step
  step-faulted name f = rw (ensure_healthy_err c e, step)

pub step-healthy :
    {S W : Type 0} (store : JournalStore S) (env : Environment W) (c : WorkflowCtx S W)
    (name : StepName) (f : StepBody W)
    → IsHealthy c
    → step store env name f c
      ≡ retain_step_result (resolve_step store env name f c).0 (resolve_step store env name f c).1
unfolding step
step-healthy store env c name f e = rw (ensure_healthy_ok c e, step)

module _ {S W : Type 0} {store : JournalStore S} (contract : Contract store)
    (env : Environment W) where
  guarded-Stands :
      {A : Type 0} (m : Action S W A EngineError)
      → Keeps IsHealthy m
      → Triple (Good contract) m (λ _. Good contract) (λ _. Legal contract)
      → Keeps (Stands contract) (healthy_only (retain m))
  unfolding retain
  guarded-Stands m k t = record { at = λ c h. go c c.health refl h }
    where
      go :
          (c : WorkflowCtx S W) (health : ExecutionHealth)
          → c.health ≡ health
          → StandsIn contract health c
          → Stands contract (healthy_only (retain m) c).1
      go c healthy e h =
          rw (healthy_only-healthy (retain m) c e)
            (retain-Stands contract (m c).0 (m c).1 (k.at c e) (t.at c h))
      go c (faulted error) e h =
          rw (healthy_only-faulted (retain m) c e) (subst (λ x. StandsIn contract x c) (sym e) h)

  -- For a store that keeps the contract: from a context that stands between two commands, `now`
  -- leaves one that does, whatever the clock and the store do.
  pub now-Stands : Keeps (Stands contract) (now store env)
  unfolding now
  now-Stands =
      guarded-Stands (resolve_now store env) (resolve_now-Keeps env (IsHealthy-IsFramed store))
        (resolve_now-Good contract env)

  -- For a store that keeps the contract: from a context that stands between two commands, `random`
  -- leaves one that does, whatever the source of bytes and the store do.
  pub random-Stands : Keeps (Stands contract) (random store env)
  unfolding random
  random-Stands =
      guarded-Stands (resolve_random store env)
        (resolve_random-Keeps env (IsHealthy-IsFramed store)) (resolve_random-Good contract env)

  -- For a store that keeps the contract: from a context that stands between two commands,
  -- `sleep_until` leaves one that does, whatever the policy and the store do.
  pub sleep_until-Stands :
      (deadline : Deadline) → Keeps (Stands contract) (sleep_until store env deadline)
  unfolding sleep_until
  sleep_until-Stands deadline =
      guarded-Stands (resolve_sleep store env deadline)
        (resolve_sleep-Keeps env (IsHealthy-IsFramed store) deadline)
        (resolve_sleep-Good contract env deadline)

  -- For a store that keeps the contract: from a context that stands between two commands, `step` of a
  -- name that the constructor accepts leaves one that does, whatever its body, the policy and the store do. Its journal reads, and
  -- unless a fault is retained, it is behind a state that is ready for the context's next position.
  pub step-Stands :
      (name : StepName) (f : StepBody W)
      → step_name name ≡ ok name
      → Keeps (Stands contract) (step store env name f)
  step-Stands name f valid = record { at = λ c h. go c c.health refl h }
    where
      go :
          (c : WorkflowCtx S W) (health : ExecutionHealth)
          → c.health ≡ health
          → StandsIn contract health c
          → Stands contract (step store env name f c).1
      go c healthy e h = rw (step-healthy store env c name f e) (
          retain_step-Stands contract (resolve_step store env name f c).0
            (resolve_step store env name f c).1
            ((resolve_step-Keeps env (IsHealthy-IsFramed store) name f).at c e)
            ((resolve_step-Good contract env name f valid).at c h))
      go c (faulted error) e h =
          rw (step-faulted store env c e name f) (subst (λ x. StandsIn contract x c) (sym e) h)
