-- ===== src/Engine/Start.antt =====
-- `Engine::run` of src/engine.rs, from the start of the call to its return: its streams and leases.
use yaoki.Journal.WellFormed.{IsWellFormed}
use yaoki.Prelude.{
  [], ◌∷◌, ◌≡◌, ◌≢◌, inl, inr, refl, sym, ◌∙◌, subst, Bool, true, Result, ok, err, ◌>>=◌, map_err,
  Result-cases, Bool-cases, ◌==◌, list_eq, nat_eq, eq_of_beq, ne_of_beq,
}
use yaoki.Text.{is_empty}
use yaoki.Execution.{ExecutionId, WorkflowName, WorkflowVersion}
use yaoki.Seq
use yaoki.Seq.{EventOffset}
use yaoki.Journal.{EventPayload, Journal, JournalError, execution_started}
use yaoki.Journal.Extends.{Extends}
use yaoki.Journal.Store.{JournalStore, Contract, Appended, Acquired}
use yaoki.History.{ready, scan, walk}
use yaoki.Context.Cursor
use yaoki.Context.State.{Environment, EngineError, journal}
use yaoki.Context.State
use yaoki.Engine.Workflow.{Workflow}
use yaoki.Engine.Lifecycle
use yaoki.Engine.Lifecycle.{Execution, created, running, start, start_loaded, new}
use yaoki.Context.Frame.{Frame}
use yaoki.Engine.Run.{finish, run, run_created}
use yaoki.Engine.Streams.{
  EmptyOrReadable, Moves, Moves-trans, append-Moves, load-Moves, acquire-Moves, Closed,
  release-Closed, Closed-after,
}
use yaoki.Engine.Entry.{started-Stands, Frame-new}
use yaoki.Engine.Safety.{finish-Closed}

pub scan_start :
    (w : WorkflowName) (v : WorkflowVersion) (p : EventPayload)
    → scan (execution_started w v p ∷ []) ≡ ok (ready Seq.zero)
unfolding scan walk
scan_start w v p = refl

module _ {S : Type 0} {store : JournalStore S} (contract : Contract store) where
  -- What a call on one execution may leave: the journals of other streams and all owners are as before, and
  -- the journal of the execution has at most grown and is empty or can be read.
  pub record Safe (id : ExecutionId) (s s' : S) : Type 0 where
    pub journals :
        (other : ExecutionId)
        → contract.stream_of other ≢ contract.stream_of id
        → contract.journal_of s' other ≡ contract.journal_of s other
    pub owners : (other : ExecutionId) → contract.owned s' other ≡ contract.owned s other
    pub grows : Extends (contract.journal_of s id) (contract.journal_of s' id)
    pub readable : EmptyOrReadable (contract.journal_of s' id)

  pub Moves-Safe :
      (id : ExecutionId) (s s' : S)
      → Moves contract id s s'
      → contract.owned s' id ≡ contract.owned s id
      → EmptyOrReadable (contract.journal_of s' id)
      → Safe id s s'
  Moves-Safe id s s' m o r = record {
    journals = m.journals;
    owners = λ other. elim (Bool-cases (contract.stream_of other == contract.stream_of id)) [
      | inl e ↦
          (let same = eq_of_beq (contract.stream_of other) (contract.stream_of id) e in
            contract.owned_stream id other s' same
            ∙ o
            ∙ sym (contract.owned_stream id other s same))
      | inr e ↦ m.owners other (ne_of_beq (contract.stream_of other) (contract.stream_of id) e)
    ];
    grows = m.grows;
    readable = r;
  }

  -- What `start` leaves: a failure has dropped the handle, a success has journaled the start alone.
  abbrev pub StartedAs :
      (e : Execution created) → S → Result (Execution running) EngineError × S → Type 0
  StartedAs e s (ok e', s') =
      (e'.id ≡ e.id)
      × Moves contract e.id s s'
      × (scan (contract.journal_of s' e.id) ≡ ok (ready Seq.zero))
  StartedAs e s (err error, s') = Closed contract e.id s s'

  -- The append of a start record to a stream on which nothing is recorded.
  begin_as :
      (e : Execution created) (s s1 : S) (w : WorkflowName) (v : WorkflowVersion) (p : EventPayload)
      → Moves contract e.id s s1
      → contract.journal_of s1 e.id ≡ []
      → IsWellFormed (execution_started w v p)
      → StartedAs e s (Lifecycle.append_to store running e (execution_started w v p) s1)
  begin_as e s s1 w v p m empty valid =
      go (store.append e.id (execution_started w v p) s1).0
        (store.append e.id (execution_started w v p) s1).1
        (Moves-trans contract m (append-Moves contract e.id (execution_started w v p) s1))
        (contract.append_lem e.id (execution_started w v p) s1 valid)
    where
      go :
          (r : Result EventOffset JournalError) (s2 : S)
          → Moves contract e.id s s2
          → Appended
              (contract.journal_of s1 e.id)
              (execution_started w v p)
              r
              (contract.journal_of s2 e.id)
          → StartedAs e s (
              Lifecycle.or_drop store e.id
                (map_err journal r >>= λ _. ok (record { id = e.id }), s2))
      go (ok n) s2 m a = (refl, m, rw (a.1, empty) (scan_start w v p))
      go (err x) s2 m (inl a) = release-Closed contract e.id s s2 m (inl (a ∙ empty))
      go (err x) s2 m (inr a) =
          release-Closed contract e.id s s2 m
            (inr (ready Seq.zero, rw (a, empty) (scan_start w v p)))

  pub is_empty_nil : (events : Journal) → is_empty events ≡ true → events ≡ []
  is_empty_nil [] h = refl
  is_empty_nil (x ∷ events) h = cc

  pub start_as :
      (e : Execution created) (s : S) (w : WorkflowName) (v : WorkflowVersion) (p : EventPayload)
      → EmptyOrReadable (contract.journal_of s e.id)
      → IsWellFormed (execution_started w v p)
      → StartedAs e s (start store e w v p s)
  unfolding start start_loaded
  start_as e s w v p h valid = elim (Result-cases (store.load e.id s).0) [
    | inr (x, q) ↦ rw (q, start_loaded) (release-Closed contract e.id s s1 moved same)
    | inl (events, q) ↦ elim (Bool-cases (is_empty events)) [
      | inl t ↦
          rw (q, start_loaded)
            (rw t (
              begin_as e s s1 w v p moved
                (contract.load_journal e.id e.id s
                  ∙ sym (contract.load_lem e.id s events q)
                  ∙ is_empty_nil events t)
                valid))
      | inr t ↦ rw (q, start_loaded) (rw t (release-Closed contract e.id s s1 moved same))
    ]
  ]
    where
      s1 : S
      s1 = (store.load e.id s).1

      moved : Moves contract e.id s s1
      moved = load-Moves contract e.id s

      same : EmptyOrReadable (contract.journal_of s1 e.id)
      same = rw (contract.load_journal e.id e.id s) h

module _ {S W E : Type 0} {store : JournalStore S} (contract : Contract store) (env : Environment W)
    (w : Workflow W E) (input : EventPayload) where
  -- What follows a start.
  pub begun-Closed :
      (e : Execution created) (s s1 : S) (world : W) (e' : Execution running)
      → e'.id ≡ e.id
      → Moves contract e.id s s1
      → scan (contract.journal_of s1 e.id) ≡ ok (ready Seq.zero)
      → Closed contract e.id s
          (finish store env w e' (State.new s1 world e.id (Cursor.new [])) input).1
  begun-Closed e s s1 world e' same m h =
      let done : Closed contract e'.id s1
          (finish store env w e' (State.new s1 world e.id (Cursor.new [])) input).1 =
        finish-Closed contract env w s1 e' (State.new s1 world e.id (Cursor.new [])) input
          (subst (λ i. Frame contract s1 i (State.new s1 world e.id (Cursor.new []))) (sym same)
            (Frame-new contract s1 world e.id (Cursor.new [])))
          (started-Stands contract s1 world e.id h) in
      Closed-after contract m (
        subst
          (λ i.
            Closed contract i s1
              (finish store env w e' (State.new s1 world e.id (Cursor.new [])) input).1)
          same done)

  created-Closed :
      (e : Execution created) (s : S) (world : W)
      → EmptyOrReadable (contract.journal_of s e.id)
      → Closed contract e.id s (run_created store env w input e s world).1
  unfolding run_created
  created-Closed e s world h = elim (Result-cases begun.0) [
    | inr (x, q) ↦ rw (q, run_created) (subst (λ r. StartedAs contract e s (r, begun.1)) q left)
    | inl (e', q) ↦
        rw (q, run_created)
          (let (same, m, one) = subst (λ r. StartedAs contract e s (r, begun.1)) q left in
            begun-Closed e s begun.1 world e' same m one)
  ]
    where
      begun : Result (Execution running) EngineError × S
      begun = start store e w.name w.version input s

      left : StartedAs contract e s begun
      left = start_as contract e s w.name w.version input h (w.name_ok, w.version_ok)

  -- For a store that keeps the contract, whatever the workflow, the failpoint policy and the
  -- outside world do, and whichever calls to the store fail: `run` leaves the journals of executions
  -- with other streams and every owner as they were, only extends its own journal, and leaves it empty
  -- or readable. The journal was empty or readable before.
  pub run-Safe :
      (id : ExecutionId) (s : S) (world : W)
      → EmptyOrReadable (contract.journal_of s id)
      → Safe contract id s (run store env id w input s world).1
  unfolding run new
  run-Safe id s world h = elim (Result-cases (store.acquire id s).0) [
    | inr (x, q) ↦
        rw (q, run)
          (Moves-Safe contract id s s1 moved (subst (λ r. Acquired was r now_owned) q asked) same)
    | inl (u, q) ↦
        rw (q, run)
          (let done = created-Closed (record { id = id }) s1 world same in
            let (free, _) = subst (λ r. Acquired was r now_owned) q asked in
            Moves-Safe contract id s _ (Moves-trans contract moved done.moves)
              (done.free ∙ sym free) done.readable)
  ]
    where
      s1 : S
      s1 = (store.acquire id s).1

      was : Bool
      was = contract.owned s id

      now_owned : Bool
      now_owned = contract.owned s1 id

      asked : Acquired was (store.acquire id s).0 now_owned
      asked = contract.acquire_lem id s

      moved : Moves contract id s s1
      moved = acquire-Moves contract id s

      same : EmptyOrReadable (contract.journal_of s1 id)
      same = rw (contract.acquire_journal id id s) h
