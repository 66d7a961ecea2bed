-- ===== src/Engine/Recovery.antt =====
-- `Engine::recover_and_run` of src/engine.rs, from the start of the call to its return: its streams and
-- leases.
use yaoki.Prelude.{
  ◌≡◌, inl, inr, refl, sym, ◌∙◌, ap, subst, Bool, Result, ok, err, map_err, Result-cases, >>=-eq-ok,
  arith,
}
use yaoki.Execution.{ExecutionId, WorkflowName, WorkflowVersion}
use yaoki.Journal.{Journal, JournalError}
use yaoki.Journal.Store.{JournalStore, Contract, Acquired}
use yaoki.History.{
  HistoryState, HistoryError, ValidatedHistory, RecoveryHistory, ReplayHistory, scan,
}
use yaoki.History
use yaoki.History.Parse.{parse_ok}
use yaoki.Context.Cursor
use yaoki.Context.State.{Environment, EngineError, journal, history}
use yaoki.Context.State
use yaoki.Context.Legality.{Readable}
use yaoki.Engine.Invocation
use yaoki.Engine.Invocation.{Invocation}
use yaoki.Engine.Workflow.{Workflow}
use yaoki.Engine.Lifecycle.{
  RecoveredExecution, still_running, already_completed, already_failed, recovered, recover_from,
  recover_owned, recover,
}
use yaoki.Engine.Run.{finish, resume, recover_and_run}
use yaoki.Engine.Streams.{
  EmptyOrReadable, Moves, Moves-trans, load-Moves, acquire-Moves, Closed, release-Closed,
  Closed-after,
}
use yaoki.Engine.Entry.{recovered-Stands, Frame-new}
use yaoki.Engine.Safety.{finish-Closed}
use yaoki.Engine.Start.{Safe, Moves-Safe}

-- What `recover` found in a journal: a handle of the execution, with the end that the journal
-- records, or to go on with, a cursor over that journal, which can be read.
abbrev pub FoundAs : ExecutionId → Journal → RecoveredExecution → Type 0
FoundAs id events (already_completed e output) =
    (e.id ≡ id) × (scan events ≡ ok (HistoryState.completed output))
FoundAs id events (already_failed e error) =
    (e.id ≡ id) × (scan events ≡ ok (HistoryState.failed error))
FoundAs id events (still_running e cursor invocation) =
    (e.id ≡ id) × (cursor ≡ Cursor.from_history (record { journal = events })) × Readable events

recovered_as :
    (id : ExecutionId) (invocation : Invocation) (events : Journal) (v : ValidatedHistory)
    (end : HistoryState)
    → v.end ≡ end
    → scan events ≡ ok end
    → v.journal ≡ events
    → FoundAs id events (recovered id invocation (History.into_recovery v))
unfolding recovered History.into_recovery
recovered_as id invocation events v (HistoryState.completed output) e read same =
    rw (e, History.into_recovery) (refl, read)
recovered_as id invocation events v (HistoryState.failed error) e read same =
    rw (e, History.into_recovery) (refl, read)
recovered_as id invocation events v end e read same =
    rw (e, History.into_recovery)
      (refl, ap (λ j. Cursor.from_history (record { journal = j })) same, (end, read))

map_err_ok : {A E F : Type 0} (f : E → F) (r : Result A E) {a : A} → map_err f r ≡ ok a → r ≡ ok a
map_err_ok f (ok a) h = ground arith
map_err_ok f (err e) h = cc

pub recover_from_as :
    (id : ExecutionId) (name : WorkflowName) (version : WorkflowVersion) (events : Journal)
    (found : RecoveredExecution)
    → recover_from id name version events ≡ ok found
    → FoundAs id events found
unfolding recover_from
recover_from_as id name version events found h =
    let (invocation, _, h1) = >>=-eq-ok (Invocation.parse id events) _ h in
    let (_, _, h2) = >>=-eq-ok (Invocation.select invocation name version) _ h1 in
    let (v, parsed, h3) = >>=-eq-ok (map_err history (History.parse events)) _ h2 in
    let (read, same) = parse_ok events v (map_err_ok history (History.parse events) parsed) in
    let e : recovered id invocation (History.into_recovery v) ≡ found = ground (arith, h3) in
    subst (FoundAs id events) e (recovered_as id invocation events v v.end refl read same)

-- The four ways in which `recover` ends.
module _ {S : Type 0} (store : JournalStore S) (id : ExecutionId) (name : WorkflowName)
    (version : WorkflowVersion) (s : S) where
  unfoldable pub acquired : S
  acquired = (store.acquire id s).1

  unfoldable pub loaded : S
  unfolding acquired
  loaded = (store.load id acquired).1

  pub recover-refused :
      (x : JournalError)
      → (store.acquire id s).0 ≡ err x
      → recover store id name version s ≡ (err (journal x), acquired)
  unfolding recover acquired
  recover-refused x q = rw (q, recover)

  pub recover-unloaded :
      (x : JournalError)
      → (store.acquire id s).0 ≡ ok tt
      → (store.load id acquired).0 ≡ err x
      → recover store id name version s ≡ (err (journal x), store.release id loaded)
  unfolding recover recover_owned loaded
  recover-unloaded x q l = rw (q, recover) (rw (l, recover_owned))

  pub recover-rejected :
      (events : Journal) (x : EngineError)
      → (store.acquire id s).0 ≡ ok tt
      → (store.load id acquired).0 ≡ ok events
      → recover_from id name version events ≡ err x
      → recover store id name version s ≡ (err x, store.release id loaded)
  unfolding recover recover_owned loaded
  recover-rejected events x q l f = rw (q, recover) (rw (l, recover_owned) (rw f))

  pub recover-found :
      (events : Journal) (found : RecoveredExecution)
      → (store.acquire id s).0 ≡ ok tt
      → (store.load id acquired).0 ≡ ok events
      → recover_from id name version events ≡ ok found
      → recover store id name version s ≡ (ok found, loaded)
  unfolding recover recover_owned loaded
  recover-found events found q l f = rw (q, recover) (rw (l, recover_owned) (rw f))

module _ {S W E : Type 0} {store : JournalStore S} (contract : Contract store) (env : Environment W)
    (w : Workflow W E) where
  -- What a recovered execution goes on with gives its stream back.
  resume-Closed :
      (id : ExecutionId) (before s : S) (world : W) (found : RecoveredExecution) (events : Journal)
      → Moves contract id before s
      → EmptyOrReadable (contract.journal_of s id)
      → events ≡ contract.journal_of s id
      → FoundAs id events found
      → Closed contract id before (resume store env w found s world).1
  unfolding resume
  resume-Closed id before s world (already_completed e output) events m h same (f, _) =
      rw f (release-Closed contract id before s m h)
  resume-Closed id before s world (already_failed e error) events m h same (f, _) =
      rw f (release-Closed contract id before s m h)
  resume-Closed id before s world (still_running e cursor invocation) events m h same
        (f, at, read) =
      Closed-after contract m (
        subst
          (λ i.
            Closed contract i s
              (finish store env w e (State.new s world e.id cursor) invocation.input).1)
          f
          (finish-Closed contract env w s e (State.new s world e.id cursor) invocation.input
            (Frame-new contract s world e.id cursor)
            (rw at (
              recovered-Stands contract s world e.id events
                (same ∙ ap (contract.journal_of s) (sym f)) read))))

  owned-Closed :
      (id : ExecutionId) (s : S) (world : W)
      → EmptyOrReadable (contract.journal_of s id)
      → (store.acquire id s).0 ≡ ok tt
      → Closed contract id s (recover_and_run store env id w s world).1
  unfolding recover_and_run loaded
  owned-Closed id s world h q = elim (Result-cases (store.load id s1).0) [
    | inr (x, l) ↦
        rw (recover-unloaded store id w.name w.version s x q l, recover_and_run)
          (release-Closed contract id s s2 moved same)
    | inl (events, l) ↦ elim (Result-cases (recover_from id w.name w.version events)) [
      | inr (x, f) ↦
          rw (recover-rejected store id w.name w.version s events x q l f, recover_and_run)
            (release-Closed contract id s s2 moved same)
      | inl (found, f) ↦
          rw (recover-found store id w.name w.version s events found q l f, recover_and_run)
            (resume-Closed id s s2 world found events moved same
              (contract.load_lem id s1 events l ∙ sym (contract.load_journal id id s1))
              (recover_from_as id w.name w.version events found f))
    ]
  ]
    where
      s1 : S
      s1 = acquired store id w.name w.version s

      s2 : S
      s2 = loaded store id w.name w.version s

      moved : Moves contract id s s2
      moved = Moves-trans contract (acquire-Moves contract id s) (load-Moves contract id s1)

      same : EmptyOrReadable (contract.journal_of s2 id)
      same = rw (contract.load_journal id id s1, contract.acquire_journal id id s) h

  -- For a store that keeps the contract, whatever the workflow, the failpoint policy and the
  -- outside world do, and whichever calls to the store fail: `recover_and_run` leaves the journals
  -- of executions with other streams and every owner as they were, only extends its own journal, and
  -- leaves it empty or readable. The journal was empty or readable before.
  pub recover_and_run-Safe :
      (id : ExecutionId) (s : S) (world : W)
      → EmptyOrReadable (contract.journal_of s id)
      → Safe contract id s (recover_and_run store env id w s world).1
  unfolding recover_and_run acquired
  recover_and_run-Safe id s world h = elim (Result-cases (store.acquire id s).0) [
    | inr (x, q) ↦
        rw (recover-refused store id w.name w.version s x q, recover_and_run)
          (Moves-Safe contract id s s1 (acquire-Moves contract id s)
            (subst (λ r. Acquired was r now_owned) q asked)
            (rw (contract.acquire_journal id id s) h))
    | inl (_, q) ↦
        let done = owned-Closed id s world h q in
        let (free, _) = subst (λ r. Acquired was r now_owned) q asked in
        Moves-Safe contract id s _ done.moves (done.free ∙ sym free) done.readable
  ]
    where
      s1 : S
      s1 = (store.acquire id s).1

      was : Bool
      was = contract.owned s id

      now_owned : Bool
      now_owned = contract.owned s1 id

      asked : Acquired was (store.acquire id s).0 now_owned
      asked = contract.acquire_lem id s
