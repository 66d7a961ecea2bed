-- ===== src/Engine/Safety.antt =====
-- `Engine::run` and `Engine::recover_and_run` of src/engine.rs: their streams and leases together.
use yaoki.Journal.WellFormed.{IsWellFormed}
use yaoki.Prelude.{arith, ℕ, ◌≡◌, inl, inr, refl, subst, Result, ok, err, ◌>>◌, Result-cases}
use yaoki.Execution.{ExecutionId}
use yaoki.Seq.{Seq}
use yaoki.Journal.{
  EventPayload, JournalEvent, Journal, JournalError, execution_completed, execution_failed,
}
use yaoki.Journal.Store.{JournalStore, Contract}
use yaoki.History.{HistoryState, ready, advance, scan}
use yaoki.Context.State.{
  WorkflowCtx, Environment, ExecutionHealth, healthy, faulted, ensure_healthy,
  ensure_replay_complete,
}
use yaoki.Context.Legality.{history, Legal, Readable, AppendsTo, append_reads}
use yaoki.Context.Replay.{Good-Legal}
use yaoki.Context.Commands.{Stands, StandsIn, ensure_healthy_ok, ensure_healthy_err}
use yaoki.Context.Frame.{Frame}
use yaoki.Engine.Workflow.{Workflow, execute}
use yaoki.Engine.Lifecycle
use yaoki.Engine.Lifecycle.{Execution, running}
use yaoki.Engine.Run.{conclude, settle, finish}
use yaoki.Engine.Streams.{Moves, Moves-trans, append-Moves, Closed, release-Closed}
use yaoki.Engine.Legality.{execute-Stands, execute-Frame, complete_reads}

-- The terminal event of what a workflow returned.
abbrev pub terminal : {W E : Type 0} → Workflow W E → Result EventPayload E → JournalEvent
terminal w (ok output) = execution_completed output
terminal w (err error) = execution_failed (record { message = w.debug error })

module _ {S W E : Type 0} (store : JournalStore S) (env : Environment W) (w : Workflow W E)
    (e : Execution running) where
  -- However the append of the terminal event ends, the handle is dropped behind it.
  pub conclude_store :
      (result : Result EventPayload E) (s : S)
      → (conclude store env w e result s).1
        ≡ store.release e.id (store.append e.id (terminal w result) s).1
  unfolding conclude Lifecycle.complete Lifecycle.fail
  conclude_store (ok output) s = ground arith
  conclude_store (err error) s = ground arith

abbrev pub ended : {W E : Type 0} → Workflow W E → Result EventPayload E → HistoryState
ended w (ok output) = HistoryState.completed output
ended w (err error) = HistoryState.failed (record { message = w.debug error })

pub advance-terminal :
    {W E : Type 0} (w : Workflow W E) (result : Result EventPayload E) (n : Seq) (offset : ℕ)
    → advance (ready n) (terminal w result) offset ≡ ok (ended w result)
unfolding advance
advance-terminal w (ok output) n offset = refl
advance-terminal w (err error) n offset = refl

pub terminal-IsWellFormed :
    {W E : Type 0} (w : Workflow W E) (result : Result EventPayload E)
    → IsWellFormed (terminal w result)
terminal-IsWellFormed w (ok output) = tt
terminal-IsWellFormed w (err error) = tt

module _ {S W : Type 0} {store : JournalStore S} (contract : Contract store) where
  -- What passes the checks of `finish` has read its whole journal.
  pub settled_reads :
      (c : WorkflowCtx S W) (state : ExecutionHealth)
      → c.health ≡ state
      → StandsIn contract state c
      → (ensure_healthy c >> ensure_replay_complete c) ≡ ok tt
      → scan (history contract c) ≡ ok (ready c.seq)
  settled_reads c healthy e h q =
      complete_reads contract c c.mode refl h
        (subst (λ r. (r >> ensure_replay_complete c) ≡ ok tt) (ensure_healthy_ok c e) q)
  settled_reads c (faulted error) e h q =
      absurd (cc (subst (λ r. (r >> ensure_replay_complete c) ≡ ok tt) (ensure_healthy_err c e) q))

  StandsIn-Legal :
      (c : WorkflowCtx S W) (state : ExecutionHealth) → StandsIn contract state c → Legal contract c
  StandsIn-Legal c healthy h = Good-Legal contract c h
  StandsIn-Legal c (faulted error) h = h

  Frame-Moves :
      (before : S) (id : ExecutionId) (c : WorkflowCtx S W)
      → Frame contract before id c
      → Moves contract id before c.store
  Frame-Moves before id c f = record {
    journals = f.others;
    owners = λ j n. f.owners j;
    grows = f.own;
  }

AppendsTo-Readable :
    (state : HistoryState) (r : Result ℕ JournalError) (after : Journal)
    → AppendsTo state r after
    → Readable after
AppendsTo-Readable state (ok n) after h = (state, h)
AppendsTo-Readable state (err e) after h = h

module _ {S W E : Type 0} {store : JournalStore S} (contract : Contract store) (env : Environment W)
    (w : Workflow W E) (before : S) (e : Execution running) where
  terminal-Readable :
      (result : Result EventPayload E) (s : S) (n : Seq)
      → scan (contract.journal_of s e.id) ≡ ok (ready n)
      → Readable (contract.journal_of (store.append e.id (terminal w result) s).1 e.id)
  terminal-Readable result s n h =
      AppendsTo-Readable (ended w result) (store.append e.id (terminal w result) s).0 _ (
        append_reads (ready n) (ended w result) (terminal w result) (contract.journal_of s e.id) _ _
          h (advance-terminal w result n)
          (contract.append_lem e.id (terminal w result) s (terminal-IsWellFormed w result)))

  settle-Closed :
      (result : Result EventPayload E) (c : WorkflowCtx S W)
      → Frame contract before e.id c
      → Stands contract c
      → Closed contract e.id before (settle store env w e result c).1
  unfolding settle
  settle-Closed result c f h = elim (Result-cases (ensure_healthy c >> ensure_replay_complete c)) [
    | inr (error, q) ↦
        rw (q, settle)
          (release-Closed contract e.id before c.store (Frame-Moves contract before e.id c f) (
            inr (
              subst (λ i. Readable (contract.journal_of c.store i)) f.identity
                (StandsIn-Legal contract c c.health h))))
    | inl (_, q) ↦
        rw (q, settle)
          (rw (conclude_store store env w e result c.store) (
            release-Closed contract e.id before _
              (Moves-trans contract (Frame-Moves contract before e.id c f)
                (append-Moves contract e.id (terminal w result) c.store))
              (inr (
                terminal-Readable result c.store c.seq (
                  subst (λ i. scan (contract.journal_of c.store i) ≡ ok (ready c.seq)) f.identity
                    (settled_reads contract c c.health refl h q))))))
  ]

  -- From a context that stands between two commands, `finish` gives the stream back, and what it
  -- holds can be read.
  pub finish-Closed :
      (c : WorkflowCtx S W) (input : EventPayload)
      → Frame contract before e.id c
      → Stands contract c
      → Closed contract e.id before (finish store env w e c input).1
  unfolding finish
  finish-Closed c input f h =
      settle-Closed (execute store env (w.run input) c).0 (execute store env (w.run input) c).1
        ((execute-Frame contract env (w.run input) before e.id).at c f)
        ((execute-Stands contract env (w.run input)).at c h)
