-- ===== src/FileStore/Contract.antt =====
-- `FileJournal` of src/stores/file.rs and the contract of a store, on a file system that keeps its laws and with
-- a `serde_json` that reads what it writes: the journal of an execution is what its file stands for, and its
-- owner is the lock on its lock file.
use yaoki.Prelude.{
  ◌≡◌, ◌≢◌, ◌++◌, [], ◌∷◌, list_eq, nat_eq, ◌==◌, Bool-cases, eq_of_beq, ne_of_beq, inl, inr, sym,
  ◌∙◌, ap, false, Result, ok, err, map_err, Result-cases,
}
use yaoki.Execution.{ExecutionId}
use yaoki.Journal.{JournalError}
use yaoki.Journal.Store.{Contract, Acquired}
use yaoki.FileSystem.{
  FileSystem, FileLaws, Guards, Quiet, TryLockError, would_block, error, Locked, Stated, Frees,
  Reliable, Stated-readable,
}
use yaoki.FileStore.Calls.{◌>>=◌}
use yaoki.FileStore.Payload.{Serde}
use yaoki.FileStore.View.{SerdeLaws, journal_in}
use yaoki.FileStore.Names.{append_cancel}
use yaoki.FileStore.Journals.{
  journal_of, owned, append-Ends, append_touched, appended, grows, load_loaded, either_touched,
  either_same,
}
use yaoki.FileStore.{
  hex_encode, path_for, lock_path, ownership_error, load, acquire, release, file_journal,
}

-- Different streams have different files.
pub path_for-apart : (a b : ExecutionId) → hex_encode a ≢ hex_encode b → path_for a ≢ path_for b
path_for-apart a b ne h = ne (append_cancel _ _ _ h)

pub lock_path-apart : (a b : ExecutionId) → hex_encode a ≢ hex_encode b → lock_path a ≢ lock_path b
lock_path-apart a b ne h = ne (append_cancel _ _ _ h)

module _ {S : Type 0} {fs : FileSystem S} (laws : FileLaws fs) where
  -- What `acquire` does: the locks of other streams and every file stay as they were.
  pub record Taken (id : ExecutionId) (before : S) (r : Result (Unit {0}) JournalError) (s : S)
      : Type 0 where
    pub result : Acquired (laws.locked before (lock_path id)) r (laws.locked s (lock_path id))
    pub guards : Guards laws.contents laws.locked (lock_path id) before s

  locked_of :
      (id : ExecutionId) (before : S) (r : Result (Unit {0}) TryLockError) (s1 s2 : S)
      → laws.locked s1 (lock_path id) ≡ laws.locked before (lock_path id)
      → Locked (laws.locked s1 (lock_path id)) r (laws.locked s2 (lock_path id))
      → Acquired
          (laws.locked before (lock_path id))
          (map_err (ownership_error id) r)
          (laws.locked s2 (lock_path id))
  locked_of id before (ok u) s1 s2 e (free, taken) = (sym e ∙ free, taken)
  locked_of id before (err would_block) s1 s2 e (held, same) = same ∙ e
  locked_of id before (err (error x)) s1 s2 e same = same ∙ e

  pub acquire-Taken :
      (id : ExecutionId) (before : S)
      → Taken id before (acquire fs id before).0 (acquire fs id before).1
  unfolding acquire ◌>>=◌
  acquire-Taken id before = elim (Result-cases (fs.open_lock (lock_path id) before).0) [
    | inr (x, e) ↦ rw e (record {
      result = opened.locks (lock_path id);
      guards = record { files = opened.files; others = λ other ne. opened.locks other };
    })
    | inl (u, e) ↦ rw e (record {
      result =
          locked_of id before (fs.try_lock (lock_path id) s1).0 s1 (fs.try_lock (lock_path id) s1).1
            (opened.locks (lock_path id)) (laws.try_lock_lem (lock_path id) s1);
      guards = record {
        files = λ other. tried.files other ∙ opened.files other;
        others = λ other ne. tried.others other ne ∙ opened.locks other;
      };
    })
  ]
    where
      s1 : S
      s1 = (fs.open_lock (lock_path id) before).1

      opened : Quiet laws.contents laws.locked before s1
      opened = laws.open_lock_quiet (lock_path id) before

      tried : Guards laws.contents laws.locked (lock_path id) s1 (fs.try_lock (lock_path id) s1).1
      tried = laws.try_lock_guards (lock_path id) s1

  pub release-Guards :
      (id : ExecutionId) (s : S)
      → Guards laws.contents laws.locked (lock_path id) s (release fs id s)
  unfolding release
  release-Guards id s =
      let a = laws.unlock_guards (lock_path id) s in
      let b = laws.close_guards (lock_path id) (fs.unlock (lock_path id) s).1 in
      record {
        files = λ other. b.files other ∙ a.files other;
        others = λ other ne. b.others other ne ∙ a.others other ne;
      }

  pub release_free :
      (id : ExecutionId) (s : S)
      → Frees laws (lock_path id) s
      → laws.locked (release fs id s) (lock_path id) ≡ false
  unfolding release
  release_free id s (inl unlocked) =
      laws.close_free (lock_path id) _ (laws.unlock_lem (lock_path id) s unlocked)
  release_free id s (inr sole) =
      elim (laws.close_lem (lock_path id) (fs.unlock (lock_path id) s).1) [
        | inl free ↦ free
        | inr copied ↦ cc (sole, copied)
      ]

module _ {S : Type 0} {fs : FileSystem S} (laws : FileLaws fs) (serde : Serde)
    (serde_laws : SerdeLaws serde) (reliable : Reliable laws) where
  pub stated : (id : ExecutionId) (s : S) → Stated laws (path_for id) s
  stated id s = Stated-readable laws (path_for id) s (reliable.readable (path_for id) s)

  -- A load leaves what every file stands for, the file that it heals included.
  pub load_other :
      (id other : ExecutionId) (s : S)
      → journal_of laws serde serde_laws (load fs serde id s).1 other
        ≡ journal_of laws serde serde_laws s other
  load_other id other s =
      let healed = (load_loaded laws serde serde_laws id s (stated id s)).1 in
      elim (Bool-cases (path_for other == path_for id)) [
        | inl e ↦
            (let same = eq_of_beq (path_for other) (path_for id) e in
              ap (λ path. journal_in serde (laws.contents (load fs serde id s).1 path)) same
              ∙ either_same laws serde serde_laws id s _ healed
              ∙ ap (λ path. journal_in serde (laws.contents s path)) (sym same))
        | inr e ↦ ap (journal_in serde) (
            (either_touched laws serde serde_laws id s _ _ healed).1.others (path_for other)
              (ne_of_beq (path_for other) (path_for id) e))
      ]

  abbrev pub file_contract : Contract (file_journal fs serde)
  file_contract = record {
    stream_of = hex_encode;
    journal_of = journal_of laws serde serde_laws;
    owned = owned laws serde serde_laws;
    owned_stream = λ id other s e.
        ap (λ name. laws.locked s (name ++ (b'.' ∷ b'l' ∷ b'o' ∷ b'c' ∷ b'k' ∷ []))) e;
    append_lem = λ id event s valid.
        appended laws serde serde_laws id event s _ _ valid
          (append-Ends laws serde serde_laws id event s (stated id s));
    append_grows = λ id event s.
        grows laws serde serde_laws id event s _ _
          (append-Ends laws serde serde_laws id event s (stated id s));
    append_other = λ id other event s ne. ap (journal_in serde) (
        (append_touched laws serde serde_laws id event s (stated id s)).1.others (path_for other)
          (path_for-apart other id ne));
    append_owned = λ id other event s.
        (append_touched laws serde serde_laws id event s (stated id s)).1.locks (lock_path other);
    load_lem = λ id s journal e. (load_loaded laws serde serde_laws id s (stated id s)).0 journal e;
    load_journal = load_other;
    load_owned = λ id other s.
        (either_touched laws serde serde_laws id s _ _
            (load_loaded laws serde serde_laws id s (stated id s)).1).1.locks
          (lock_path other);
    acquire_lem = λ id s. (acquire-Taken laws id s).result;
    acquire_other = λ id other s ne.
        (acquire-Taken laws id s).guards.others (lock_path other) (lock_path-apart other id ne);
    acquire_journal = λ id other s.
        ap (journal_in serde) ((acquire-Taken laws id s).guards.files (path_for other));
    release_self = λ id s. release_free laws id s (reliable.frees (lock_path id) s);
    release_other = λ id other s ne.
        (release-Guards laws id s).others (lock_path other) (lock_path-apart other id ne);
    release_journal =
        λ id other s. ap (journal_in serde) ((release-Guards laws id s).files (path_for other));
  }
