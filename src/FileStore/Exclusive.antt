-- ===== src/FileStore/Exclusive.antt =====
-- The ownership of an execution in src/stores/file.rs, over sequences of the store's operations by any callers.
use yaoki.Prelude.{
  List, [], ◌∷◌, ◌≡◌, ◌≢◌, ◌⊎◌, inl, inr, sym, ◌∙◌, ap, true, false, Result, ok, err, map_err,
  Result-cases, All, Bool-cases, ◌==◌, list_eq, nat_eq, eq_of_beq, ne_of_beq,
}
use yaoki.Execution.{ExecutionId}
use yaoki.Journal.{JournalEvent, JournalError, execution_owned}
use yaoki.Journal.Store.{Acquired}
use yaoki.FileSystem.{
  FileSystem, FileLaws, TryLockError, would_block, error, Locked, Keeps, Frees-cases, Stated-cases,
}
use yaoki.FileStore.Calls.{◌>>=◌}
use yaoki.FileStore.Payload.{Serde}
use yaoki.FileStore.View.{SerdeLaws}
use yaoki.FileStore.Names.{IsBytes, path_for-distinct}
use yaoki.FileStore.Journals.{starts, append_touched, load_loaded, either_touched}
use yaoki.FileStore.Unhealed.{append-Unhealed, load_hidden}
use yaoki.FileStore.Contract.{acquire-Taken, release-Guards, release_free}
use yaoki.FileStore.{lock_path, path_for, ownership_error, acquire, release, append, load}

-- A call of the store, by anyone.
pub data Operation : Type 0 where
  acquires : ExecutionId → Operation
  releases : ExecutionId → Operation
  appends : ExecutionId → JournalEvent → Operation
  loads : ExecutionId → Operation

-- The operation is not the release of the execution.
abbrev pub Spares : ExecutionId → Operation → Type 0
Spares id (releases other) = IsBytes other × (other ≢ id)
Spares id _ = Unit

module _ {S : Type 0} (fs : FileSystem S) (serde : Serde) where
  abbrev pub perform : Operation → S → S
  perform (acquires id) s = (acquire fs id s).1
  perform (releases id) s = release fs id s
  perform (appends id event) s = (append fs serde id event s).1
  perform (loads id) s = (load fs serde id s).1

  abbrev pub perform_all : List Operation → S → S
  perform_all [] s = s
  perform_all (op ∷ ops) s = perform_all ops (perform op s)

module _ {S : Type 0} {fs : FileSystem S} (laws : FileLaws fs) where
  -- A stream that is held stays so when it is asked for.
  acquire_held :
      (id : ExecutionId) (s s' : S) (r : Result (Unit {0}) JournalError)
      → laws.locked s (lock_path id) ≡ true
      → Acquired (laws.locked s (lock_path id)) r (laws.locked s' (lock_path id))
      → (r ≢ ok tt) × (laws.locked s' (lock_path id) ≡ true)
  acquire_held id s s' (ok u) held (free, _) = cc
  acquire_held id s s' (err e) held same = (λ h. cc, same ∙ held)

  -- One that is free is not refused as owned.
  not_refused :
      (id : ExecutionId) (s s' : S) (r : Result (Unit {0}) TryLockError)
      → laws.locked s (lock_path id) ≡ false
      → Locked (laws.locked s (lock_path id)) r (laws.locked s' (lock_path id))
      → map_err (ownership_error id) r ≢ err (execution_owned id)
  not_refused id s s' (ok u) free l = λ h. cc
  not_refused id s s' (err would_block) free (held, _) = λ h. cc (free, held)
  not_refused id s s' (err (error e)) free l = λ h. cc

  acquire_free :
      (id : ExecutionId) (s : S)
      → laws.locked s (lock_path id) ≡ false
      → (acquire fs id s).0 ≢ err (execution_owned id)
  unfolding acquire ◌>>=◌
  acquire_free id s free = elim (Result-cases (fs.open_lock (lock_path id) s).0) [
    | inr (x, e) ↦ rw e (λ h. cc)
    | inl (u, e) ↦ rw e (
        not_refused id _ _ (fs.try_lock (lock_path id) _).0
          ((laws.open_lock_quiet (lock_path id) s).locks (lock_path id) ∙ free)
          (laws.try_lock_lem (lock_path id) (fs.open_lock (lock_path id) s).1))
  ]

module _ {S : Type 0} {fs : FileSystem S} (laws : FileLaws fs) (serde : Serde)
    (serde_laws : SerdeLaws serde) (id : ExecutionId) (id_bytes : IsBytes id) where
  append_locks :
      (other : ExecutionId) (event : JournalEvent) (s : S)
      → laws.locked (append fs serde other event s).1 (lock_path id) ≡ laws.locked s (lock_path id)
  append_locks other event s = elim (Stated-cases laws (path_for other) s) [
    | inl stated ↦
        (append_touched laws serde serde_laws other event s stated).1.locks (lock_path id)
    | inr (e, _) ↦
        (append-Unhealed laws serde other s _ event
            (starts laws serde serde_laws other s, e)).1.1.locks
          (lock_path id)
  ]

  load_locks :
      (other : ExecutionId) (s : S)
      → laws.locked (load fs serde other s).1 (lock_path id) ≡ laws.locked s (lock_path id)
  load_locks other s = elim (Stated-cases laws (path_for other) s) [
    | inl stated ↦
        (either_touched laws serde serde_laws other s _ _
            (load_loaded laws serde serde_laws other s stated).1).1.locks
          (lock_path id)
    | inr (e, _) ↦ ap (λ r. laws.locked r.1 (lock_path id)) (load_hidden fs serde other s e)
  ]

  -- An operation that is not its release leaves the stream held.
  perform_held :
      (op : Operation) (s : S)
      → Spares id op
      → laws.locked s (lock_path id) ≡ true
      → laws.locked (perform fs serde op s) (lock_path id) ≡ true
  perform_held (acquires other) s spared held =
      let t = acquire-Taken laws other s in
      elim (Bool-cases (lock_path id == lock_path other)) [
        | inl e ↦
            (let same = eq_of_beq (lock_path id) (lock_path other) e in
              ap (laws.locked (acquire fs other s).1) same
              ∙ (acquire_held laws other s (acquire fs other s).1 _
                  (ap (laws.locked s) (sym same) ∙ held) t.result).1)
        | inr e ↦
            t.guards.others (lock_path id) (ne_of_beq (lock_path id) (lock_path other) e) ∙ held
      ]
  perform_held (releases other) s (bytes, ne) held =
      (release-Guards laws other s).others (lock_path id)
        (λ h. (path_for-distinct other id bytes id_bytes ne).1 (sym h))
      ∙ held
  perform_held (appends other event) s spared held = append_locks other event s ∙ held
  perform_held (loads other) s spared held = load_locks other s ∙ held

  perform_all_held :
      (ops : List Operation) (s : S)
      → All (Spares id) ops
      → laws.locked s (lock_path id) ≡ true
      → laws.locked (perform_all fs serde ops s) (lock_path id) ≡ true
  perform_all_held [] s spared held = held
  perform_all_held (op ∷ ops) s (here, spared) held =
      perform_all_held ops (perform fs serde op s) spared (perform_held op s here held)

  taken :
      (s s' : S) (r : Result (Unit {0}) JournalError)
      → r ≡ ok tt
      → Acquired (laws.locked s (lock_path id)) r (laws.locked s' (lock_path id))
      → laws.locked s' (lock_path id) ≡ true
  taken s s' (ok u) won (_, now) = now
  taken s s' (err e) won same = cc

  -- On a file system that keeps its laws, with a `serde_json` that reads what it writes: an execution that was
  -- acquired stays its owner's alone: after any sequence of acquisitions, appends and loads of any executions and
  -- of releases of others, whichever calls to the operating system fail, no acquisition of it succeeds. Once it is
  -- released, an acquisition is not refused as owned, unless that release may keep the lock: its unlock failed,
  -- and another process has a copy of the handle. The identities of the execution and of those that are released
  -- are made of bytes.
  pub acquire-perform_all :
      (ops : List Operation) (s : S)
      → (acquire fs id s).0 ≡ ok tt
      → All (Spares id) ops
      → ((acquire fs id (perform_all fs serde ops (acquire fs id s).1)).0 ≢ ok tt)
        × (((acquire fs id (release fs id (perform_all fs serde ops (acquire fs id s).1))).0
              ≢ err (execution_owned id))
            ⊎ Keeps laws (lock_path id) (perform_all fs serde ops (acquire fs id s).1))
  acquire-perform_all ops s won spared =
      let held =
        perform_all_held ops (acquire fs id s).1 spared
          (taken s _ (acquire fs id s).0 won (acquire-Taken laws id s).result) in
      (
        (acquire_held laws id _ _ _ held (acquire-Taken laws id _).result).0,
        elim (Frees-cases laws (lock_path id) (perform_all fs serde ops (acquire fs id s).1)) [
          | inl frees ↦ inl (acquire_free laws id _ (release_free laws id _ frees))
          | inr keeps ↦ inr keeps
        ],
      )
