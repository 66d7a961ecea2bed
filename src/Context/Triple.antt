-- ===== src/Context/Triple.antt =====
-- Pre- and postconditions of actions on the context, with a rule for each way to build an action.
use yaoki.Prelude.{Result, ok, err, map_err}
use yaoki.Context.State.{WorkflowCtx, EngineError, StepError, engine}
use yaoki.Context.Monad.{Action, pure, lift, ◌>>=◌, continue_with, as_step}

-- What holds of a result and of the context that comes with it.
abbrev pub Holds :
    {S W A E : Type 0}
    → (A → WorkflowCtx S W → Type 0)
    → (E → WorkflowCtx S W → Type 0)
    → Result A E
    → WorkflowCtx S W
    → Type 0
Holds Q F (ok a) c = Q a c
Holds Q F (err e) c = F e c

-- From a context with `P`, a success has `Q` and a failure `F`.
pub record Triple {S W A E : Type 0} (P : WorkflowCtx S W → Type 0) (m : Action S W A E)
    (Q : A → WorkflowCtx S W → Type 0) (F : E → WorkflowCtx S W → Type 0) : Type 0 where
  pub at : (c : WorkflowCtx S W) → P c → Holds Q F (m c).0 (m c).1

module _ {S W A E : Type 0} {P : WorkflowCtx S W → Type 0} {F : E → WorkflowCtx S W → Type 0} where
  pub Triple-pure :
      {Q : A → WorkflowCtx S W → Type 0} (a : A)
      → ((c : WorkflowCtx S W) → P c → Q a c)
      → Triple P (pure a) Q F
  unfolding pure
  Triple-pure a h = record { at = h }

  pub Triple-lift :
      {Q : A → WorkflowCtx S W → Type 0} (r : Result A E)
      → ((c : WorkflowCtx S W) → P c → Holds Q F r c)
      → Triple P (lift r) Q F
  unfolding lift
  Triple-lift r h = record { at = h }

continue-Holds :
    {S W A B E : Type 0} (Q : A → WorkflowCtx S W → Type 0) (R : B → WorkflowCtx S W → Type 0)
    (F : E → WorkflowCtx S W → Type 0) (r : Result A E) (f : A → Action S W B E)
    (c : WorkflowCtx S W)
    → Holds Q F r c
    → ((a : A) → Triple (Q a) (f a) R F)
    → Holds R F (continue_with r f c).0 (continue_with r f c).1
continue-Holds Q R F (ok a) f c h t = (t a).at c h
continue-Holds Q R F (err e) f c h t = h

as_step-Holds :
    {S W A : Type 0} (Q : A → WorkflowCtx S W → Type 0) (F : StepError → WorkflowCtx S W → Type 0)
    (r : Result A EngineError) (c : WorkflowCtx S W)
    → Holds Q (λ e. F (engine e)) r c
    → Holds Q F (map_err engine r) c
as_step-Holds Q F (ok a) c h = h
as_step-Holds Q F (err e) c h = h

module _ {S W A B E : Type 0} {P : WorkflowCtx S W → Type 0} {Q : A → WorkflowCtx S W → Type 0}
    {R : B → WorkflowCtx S W → Type 0} {F : E → WorkflowCtx S W → Type 0} where
  pub Triple-bind :
      (m : Action S W A E) (f : A → Action S W B E)
      → Triple P m Q F
      → ((a : A) → Triple (Q a) (f a) R F)
      → Triple P (m >>= f) R F
  unfolding ◌>>=◌
  Triple-bind m f tm tf = record {
    at = λ c h. continue-Holds Q R F (m c).0 f (m c).1 (tm.at c h) tf;
  }

module _ {S W A : Type 0} {P : WorkflowCtx S W → Type 0} {Q : A → WorkflowCtx S W → Type 0}
    {F : StepError → WorkflowCtx S W → Type 0} where
  pub Triple-as_step :
      (m : Action S W A EngineError) → Triple P m Q (λ e. F (engine e)) → Triple P (as_step m) Q F
  unfolding as_step
  Triple-as_step m t = record { at = λ c h. as_step-Holds Q F (m c).0 (m c).1 (t.at c h) }

module _ {S W A E : Type 0} {P : WorkflowCtx S W → Type 0} {Q : A → WorkflowCtx S W → Type 0}
    {F : E → WorkflowCtx S W → Type 0} where
  -- A fact that the precondition holds of every context may be used for the whole action.
  pub Triple-given :
      {X : Type 0} {m : Action S W A E}
      → ((c : WorkflowCtx S W) → P c → X)
      → (X → Triple P m Q F)
      → Triple P m Q F
  Triple-given given t = record { at = λ c h. (t (given c h)).at c h }

Holds-weaken :
    {S W A E : Type 0} (Q R : A → WorkflowCtx S W → Type 0) (F : E → WorkflowCtx S W → Type 0)
    (r : Result A E) (c : WorkflowCtx S W)
    → Holds Q F r c
    → ((a : A) (c : WorkflowCtx S W) → Q a c → R a c)
    → Holds R F r c
Holds-weaken Q R F (ok a) c h w = w a c h
Holds-weaken Q R F (err e) c h w = h

module _ {S W A E : Type 0} {P : WorkflowCtx S W → Type 0} {Q R : A → WorkflowCtx S W → Type 0}
    {F : E → WorkflowCtx S W → Type 0} where
  pub Triple-weaken :
      {m : Action S W A E}
      → Triple P m Q F
      → ((a : A) (c : WorkflowCtx S W) → Q a c → R a c)
      → Triple P m R F
  Triple-weaken {m} t w = record { at = λ c h. Holds-weaken Q R F (m c).0 (m c).1 (t.at c h) w }

module _ {S W A E : Type 0} {P R : WorkflowCtx S W → Type 0} {Q : A → WorkflowCtx S W → Type 0}
    {F : E → WorkflowCtx S W → Type 0} where
  pub Triple-assume :
      {m : Action S W A E} → ((c : WorkflowCtx S W) → P c → R c) → Triple R m Q F → Triple P m Q F
  Triple-assume assume t = record { at = λ c h. t.at c (assume c h) }
