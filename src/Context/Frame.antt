-- ===== src/Context/Frame.antt =====
-- What a whole run leaves alone: the identity of the context, the journals of other executions and
-- the owners of all.
use yaoki.Prelude.{◌≡◌, ◌≢◌, refl, ◌∙◌, ap, Result, ok, err, subst}
use yaoki.Execution.{ExecutionId}
use yaoki.Step.{StepName}
use yaoki.Time.{Deadline}
use yaoki.Journal.{EventPayload}
use yaoki.Journal.Extends.{Extends, Extends-trans}
use yaoki.Journal.Store.{JournalStore, Contract}
use yaoki.Context.State.{
  WorkflowCtx, Environment, EngineError, StepError, failed, engine, ExecutionHealth, healthy,
  faulted, ensure_healthy,
}
use yaoki.Context.Monad.{
  Action, continue_with, healthy_only, retain, retain_engine_result, retain_step_result,
}
use yaoki.Context.Keeps.{
  Keeps, IsFramed, resolve_now-Keeps, resolve_random-Keeps, resolve_sleep-Keeps, resolve_step-Keeps,
}
use yaoki.Context.Commands.{step-healthy, step-faulted}
use yaoki.Context.Now.{now, resolve_now}
use yaoki.Context.Random.{random, resolve_random}
use yaoki.Context.Sleep.{sleep_until, resolve_sleep}
use yaoki.Context.Step.{StepBody, step, resolve_step}

module _ {S W : Type 0} {store : JournalStore S} (contract : Contract store) where
  pub record Frame (before : S) (id : ExecutionId) (c : WorkflowCtx S W) : Type 0 where
    pub identity : c.execution ≡ id
    pub others :
        (other : ExecutionId)
        → contract.stream_of other ≢ contract.stream_of id
        → contract.journal_of c.store other ≡ contract.journal_of before other
    pub own : Extends (contract.journal_of before id) (contract.journal_of c.store id)
    pub owners : (other : ExecutionId) → contract.owned c.store other ≡ contract.owned before other

  pub Frame-IsFramed : (before : S) (id : ExecutionId) → IsFramed store (Frame before id)
  Frame-IsFramed before id = record {
    world = λ c w h. record {
      identity = h.identity;
      others = h.others;
      own = h.own;
      owners = h.owners;
    };
    place = λ c n mode h. record {
      identity = h.identity;
      others = h.others;
      own = h.own;
      owners = h.owners;
    };
    write = λ c e h. record {
      identity = h.identity;
      others = λ other ne.
          contract.append_other c.execution other e c.store
            (λ q. ne (q ∙ ap contract.stream_of h.identity))
          ∙ h.others other ne;
      own = Extends-trans _ _ _ h.own (
          subst
            (λ i.
              Extends (contract.journal_of c.store i)
                (contract.journal_of (store.append c.execution e c.store).1 i))
            h.identity (contract.append_grows c.execution e c.store));
      owners = λ other. contract.append_owned c.execution other e c.store ∙ h.owners other;
    };
  }

-- A predicate that says nothing of the health is kept when a fault is retained.
abbrev pub IgnoresHealth : {S W : Type 0} → (WorkflowCtx S W → Type 0) → Type 0
IgnoresHealth {S} {W} P =
    (c : WorkflowCtx S W) (health : ExecutionHealth) → P c → P (record c { health = health })

module _ {S W : Type 0} (P : WorkflowCtx S W → Type 0) (free : IgnoresHealth P) where
  retain_keeps :
      {A : Type 0} (r : Result A EngineError) (c : WorkflowCtx S W) (state : ExecutionHealth)
      → c.health ≡ state
      → P c
      → P (retain_engine_result r c).1
  unfolding retain_engine_result
  retain_keeps (ok a) c state e h = h
  retain_keeps (err x) c healthy e h = rw (e, retain_engine_result) (free c (faulted x) h)
  retain_keeps (err x) c (faulted first) e h = rw (e, retain_engine_result) h

  retain_step_keeps :
      (r : Result EventPayload StepError) (c : WorkflowCtx S W) → P c → P (retain_step_result r c).1
  unfolding retain_step_result
  retain_step_keeps (ok a) c h = h
  retain_step_keeps (err (failed x)) c h = h
  retain_step_keeps (err (engine x)) c h = retain_keeps {A = EventPayload} (err x) c c.health refl h

  continue_keeps :
      {A B : Type 0} (r : Result A EngineError) (m : Action S W B EngineError) (c : WorkflowCtx S W)
      → Keeps P m
      → P c
      → P (continue_with r (λ _. m) c).1
  continue_keeps (ok a) m c k h = k.at c h
  continue_keeps (err e) m c k h = h

  guarded-Keeps :
      {A : Type 0} (m : Action S W A EngineError) → Keeps P m → Keeps P (healthy_only (retain m))
  unfolding healthy_only retain
  guarded-Keeps m k = record {
    at = λ c h.
        continue_keeps (ensure_healthy c) (retain m) c
          (record { at = λ c h. retain_keeps (m c).0 (m c).1 (m c).1.health refl (k.at c h) }) h;
  }

module _ {S W : Type 0} {store : JournalStore S} (env : Environment W)
    (P : WorkflowCtx S W → Type 0) (framed : IsFramed store P) (free : IgnoresHealth P) where
  pub now-Keeps : Keeps P (now store env)
  unfolding now
  now-Keeps = guarded-Keeps P free (resolve_now store env) (resolve_now-Keeps env framed)

  pub random-Keeps : Keeps P (random store env)
  unfolding random
  random-Keeps = guarded-Keeps P free (resolve_random store env) (resolve_random-Keeps env framed)

  pub sleep_until-Keeps : (deadline : Deadline) → Keeps P (sleep_until store env deadline)
  unfolding sleep_until
  sleep_until-Keeps deadline =
      guarded-Keeps P free (resolve_sleep store env deadline)
        (resolve_sleep-Keeps env framed deadline)

  step_keeps :
      (name : StepName) (f : StepBody W) (c : WorkflowCtx S W) (state : ExecutionHealth)
      → c.health ≡ state
      → P c
      → P (step store env name f c).1
  step_keeps name f c healthy e h = rw (step-healthy store env c name f e) (
      retain_step_keeps P free (resolve_step store env name f c).0
        (resolve_step store env name f c).1 ((resolve_step-Keeps env framed name f).at c h))
  step_keeps name f c (faulted error) e h = rw (step-faulted store env c e name f) h

  pub step-Keeps : (name : StepName) (f : StepBody W) → Keeps P (step store env name f)
  step-Keeps name f = record { at = λ c h. step_keeps name f c c.health refl h }
