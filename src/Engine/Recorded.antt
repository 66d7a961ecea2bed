-- ===== src/Engine/Recorded.antt =====
-- What `Engine::run` and `Engine::recover_and_run` of src/engine.rs answer is what the journal says:
-- an output, or an error of the workflow, is returned only once its terminal event is recorded.
use yaoki.Prelude.{
  ℕ, ◌≡◌, refl, ◌∙◌, ap, subst, inl, inr, Result, ok, err, ◌>>◌, Result-cases, arith,
}
use yaoki.Seq.{Seq}
use yaoki.Journal.{EventPayload, Journal, JournalError}
use yaoki.Journal.Store.{JournalStore, Contract}
use yaoki.History.{HistoryState, ready, scan}
use yaoki.Context.State.{WorkflowCtx, Environment, ensure_healthy, ensure_replay_complete}
use yaoki.Context.Legality.{AppendsTo, append_reads}
use yaoki.Context.Commands.{Stands}
use yaoki.Context.Frame.{Frame}
use yaoki.Engine.Workflow.{Workflow, execute}
use yaoki.Engine.Lifecycle
use yaoki.Engine.Lifecycle.{Execution, running}
use yaoki.Engine.Run.{RunError, conclude, settle, finish}
use yaoki.Engine.Legality.{execute-Stands, execute-Frame}
use yaoki.Engine.Safety.{
  settled_reads, advance-terminal, ended, terminal, terminal-IsWellFormed, conclude_store,
}

-- What an answer says of the journal that the call leaves.
abbrev pub Recorded :
    {W E : Type 0} → Workflow W E → Result EventPayload (RunError E) → Journal → Type 0
Recorded w (ok output) events = scan events ≡ ok (HistoryState.completed output)
Recorded w (err (RunError.workflow error)) events =
    scan events ≡ ok (HistoryState.failed (record { message = w.debug error }))
Recorded w (err (RunError.recovered error)) events = scan events ≡ ok (HistoryState.failed error)
Recorded w (err (RunError.engine error)) events = Unit

module _ {S W E : Type 0} {store : JournalStore S} (contract : Contract store) (env : Environment W)
    (w : Workflow W E) (e : Execution running) where
  conclude-Recorded :
      (result : Result EventPayload E) (s : S) (n : Seq)
      → scan (contract.journal_of s e.id) ≡ ok (ready n)
      → Recorded w
          (conclude store env w e result s).0
          (contract.journal_of (conclude store env w e result s).1 e.id)
  unfolding conclude Lifecycle.complete Lifecycle.fail
  conclude-Recorded result s n h = elim (Result-cases (store.append e.id (terminal w result) s).0) [
    | inr (x, q) ↦ refused result x q
    | inl (offset, q) ↦ written result offset q (
        subst (λ r. AppendsTo (ended w result) r (contract.journal_of (after result) e.id)) q
          (append_reads (ready n) (ended w result) (terminal w result) (contract.journal_of s e.id)
            _ _ h (advance-terminal w result n)
            (contract.append_lem e.id (terminal w result) s (terminal-IsWellFormed w result))))
  ]
    where
      after : Result EventPayload E → S
      after result = (store.append e.id (terminal w result) s).1

      refused :
          (result : Result EventPayload E) (x : JournalError)
          → (store.append e.id (terminal w result) s).0 ≡ err x
          → Recorded w
              (conclude store env w e result s).0
              (contract.journal_of (conclude store env w e result s).1 e.id)
      refused (ok output) x q = rw (q, conclude) tt
      refused (err error) x q = rw (q, conclude) tt

      written :
          (result : Result EventPayload E) (offset : ℕ)
          → (store.append e.id (terminal w result) s).0 ≡ ok offset
          → scan (contract.journal_of (after result) e.id) ≡ ok (ended w result)
          → Recorded w
              (conclude store env w e result s).0
              (contract.journal_of (conclude store env w e result s).1 e.id)
      written (ok output) offset q read =
          let answer : (conclude store env w e (ok output) s).0 ≡ ok output = ground (arith, q) in
          rw answer (
            ap (λ t. scan (contract.journal_of t e.id)) (conclude_store store env w e (ok output) s)
            ∙ ap scan (contract.release_journal e.id e.id (after (ok output)))
            ∙ read)
      written (err error) offset q read =
          let answer : (conclude store env w e (err error) s).0 ≡ err (RunError.workflow error) =
            ground (arith, q) in
          rw answer (
            ap (λ t. scan (contract.journal_of t e.id)) (conclude_store store env w e (err error) s)
            ∙ ap scan (contract.release_journal e.id e.id (after (err error)))
            ∙ read)

  settle-Recorded :
      (before : S) (result : Result EventPayload E) (c : WorkflowCtx S W)
      → Frame contract before e.id c
      → Stands contract c
      → Recorded w
          (settle store env w e result c).0
          (contract.journal_of (settle store env w e result c).1 e.id)
  unfolding settle
  settle-Recorded before result c f h =
      elim (Result-cases (ensure_healthy c >> ensure_replay_complete c)) [
        | inr (error, q) ↦ rw (q, settle) tt
        | inl (_, q) ↦
            rw (q, settle)
              (conclude-Recorded result c.store c.seq (
                subst (λ i. scan (contract.journal_of c.store i) ≡ ok (ready c.seq)) f.identity
                  (settled_reads contract c c.health refl h q)))
      ]

  -- From a context that stands between two commands, what `finish` answers is recorded.
  pub finish-Recorded :
      (before : S) (c : WorkflowCtx S W) (input : EventPayload)
      → Frame contract before e.id c
      → Stands contract c
      → Recorded w
          (finish store env w e c input).0
          (contract.journal_of (finish store env w e c input).1 e.id)
  unfolding finish
  finish-Recorded before c input f h =
      settle-Recorded before (execute store env (w.run input) c).0
        (execute store env (w.run input) c).1
        ((execute-Frame contract env (w.run input) before e.id).at c f)
        ((execute-Stands contract env (w.run input)).at c h)
