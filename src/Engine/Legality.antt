-- ===== src/Engine/Legality.antt =====
-- The engine of src/engine.rs and the event grammar of src/history.rs.
use yaoki.Prelude.{List, [], ◌∷◌, ◌++◌, ◌≡◌, ap, true, ok, length, length-append, append-nil, arith}
use yaoki.Execution.{ExecutionId}
use yaoki.Step.{StepName, step_name}
use yaoki.Time.{Deadline}
use yaoki.Journal.{JournalEvent, Journal}
use yaoki.Journal.Store.{JournalStore, Contract}
use yaoki.History.{HistoryState, ready, scan}
use yaoki.Context.Cursor
use yaoki.Context.Cursor.{ReplayCursor}
use yaoki.Context.State.{WorkflowCtx, Environment, Mode, replaying, live, ensure_replay_complete}
use yaoki.Context.Keeps.{Keeps, IsFramed}
use yaoki.Context.Legality.{history, ReadyIn, Synced}
use yaoki.Context.Commands.{Stands, now-Stands, random-Stands, sleep_until-Stands, step-Stands}
use yaoki.Context.Now.{now}
use yaoki.Context.Random.{random}
use yaoki.Context.Sleep.{sleep_until}
use yaoki.Context.Step.{StepBody, step}
use yaoki.Context.Frame.{
  Frame, Frame-IsFramed, IgnoresHealth, now-Keeps, random-Keeps, sleep_until-Keeps, step-Keeps,
}
use yaoki.Engine.Workflow.{Program, execute}
use yaoki.Engine.Workflow

module _ {S W E : Type 0} (store : JournalStore S) (env : Environment W)
    {P : WorkflowCtx S W → Type 0} where
  -- What every command keeps, a whole program keeps.
  pub execute-Keeps :
      Keeps P (now store env)
      → Keeps P (random store env)
      → ((deadline : Deadline) → Keeps P (sleep_until store env deadline))
      → ((name : StepName) (f : StepBody W)
          → step_name name ≡ ok name
          → Keeps P (step store env name f))
      → (program : Program W E) → Keeps P (execute store env program)
  unfolding execute
  execute-Keeps kn kr ks kf (Workflow.finish result) = record { at = λ c h. h }
  execute-Keeps kn kr ks kf (Workflow.step name valid f k) = record {
    at = λ c h.
        (execute-Keeps kn kr ks kf (k (step store env name f c).0)).at _ ((kf name f valid).at c h);
  }
  execute-Keeps kn kr ks kf (Workflow.now k) = record {
    at = λ c h. (execute-Keeps kn kr ks kf (k (now store env c).0)).at _ (kn.at c h);
  }
  execute-Keeps kn kr ks kf (Workflow.random k) = record {
    at = λ c h. (execute-Keeps kn kr ks kf (k (random store env c).0)).at _ (kr.at c h);
  }
  execute-Keeps kn kr ks kf (Workflow.sleep_until deadline k) = record {
    at = λ c h.
        (execute-Keeps kn kr ks kf (k (sleep_until store env deadline c).0)).at _
          ((ks deadline).at c h);
  }

module _ {S W E : Type 0} {store : JournalStore S} (contract : Contract store) (env : Environment W)
    (program : Program W E) where
  pub execute-Stands : Keeps (Stands contract) (execute store env program)
  execute-Stands =
      execute-Keeps store env (now-Stands contract env) (random-Stands contract env)
        (sleep_until-Stands contract env) (step-Stands contract env) program

  pub execute-Frame :
      (before : S) (id : ExecutionId) → Keeps (Frame contract before id) (execute store env program)
  execute-Frame before id =
      execute-Keeps store env (now-Keeps env (Frame contract before id) framed free)
        (random-Keeps env (Frame contract before id) framed free)
        (sleep_until-Keeps env (Frame contract before id) framed free)
        (λ name f _. step-Keeps env (Frame contract before id) framed free name f) program
    where
      framed : IsFramed {W = W} store (Frame contract before id)
      framed = Frame-IsFramed contract before id

      free : IgnoresHealth {S = S} {W = W} (Frame contract before id)
      free c state h = record {
        identity = h.identity;
        others = h.others;
        own = h.own;
        owners = h.owners;
      }

exhausted_end :
    (cursor : ReplayCursor) (done : List JournalEvent) (x : JournalEvent) (rest : List JournalEvent)
    → Cursor.events cursor ≡ done ++ x ∷ rest
    → cursor.position ≡ length done
    → Cursor.is_exhausted cursor ≡ true
    → ⊥
unfolding Cursor.is_exhausted
exhausted_end cursor done x rest whole place e =
    ground (arith, ap length whole, length-append done (x ∷ rest))

complete_exhausted :
    {S W : Type 0} (c : WorkflowCtx S W) (cursor : ReplayCursor)
    → c.mode ≡ replaying cursor
    → ensure_replay_complete c ≡ ok tt
    → Cursor.is_exhausted cursor ≡ true
unfolding ensure_replay_complete
complete_exhausted c cursor e h = ground arith

-- A cursor with nothing left stands behind the whole journal.
exhausted_reads :
    (journal : Journal) (state : HistoryState) (cursor : ReplayCursor)
    → Synced journal state cursor
    → Cursor.is_exhausted cursor ≡ true
    → scan journal ≡ ok state
exhausted_reads journal state cursor s e = go s.done s.rest s.whole s.stored s.place s.read
  where
    go :
        (done rest : List JournalEvent)
        → Cursor.events cursor ≡ done ++ rest
        → journal ≡ done ++ rest
        → cursor.position ≡ length done
        → scan done ≡ ok state
        → scan journal ≡ ok state
    go done [] whole stored place read = rw (stored, append-nil) read
    go done (x ∷ rest) whole stored place read =
        absurd (exhausted_end cursor done x rest whole place e)

module _ {S W : Type 0} {store : JournalStore S} (contract : Contract store) where
  -- What the checks of `finish` let through stands between two commands at the journal's end.
  pub complete_reads :
      (c : WorkflowCtx S W) (mode : Mode)
      → c.mode ≡ mode
      → ReadyIn c.seq mode (history contract c)
      → ensure_replay_complete c ≡ ok tt
      → scan (history contract c) ≡ ok (ready c.seq)
  complete_reads c live e g h = g
  complete_reads c (replaying cursor) e g h =
      exhausted_reads (history contract c) (ready c.seq) cursor g (complete_exhausted c cursor e h)
