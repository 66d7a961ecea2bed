-- ===== src/FileStore/Recovery.antt =====
-- The engine of src/engine.rs on the store of src/stores/file.rs: what a run that may be cut short and the recovery
-- after it leave in the files.
use yaoki.Prelude.{◌≡◌, ◌≢◌, ◌∙◌}
use yaoki.Execution.{ExecutionId}
use yaoki.Journal.{EventPayload}
use yaoki.Journal.Extends.{Extends, Extends-trans}
use yaoki.Context.State.{Environment}
use yaoki.Engine.Workflow.{Workflow}
use yaoki.Engine.Streams.{EmptyOrReadable}
use yaoki.Engine.Start.{Safe, run-Safe}
use yaoki.Engine.Recovery.{recover_and_run-Safe}
use yaoki.Engine.Run.{run, recover_and_run}
use yaoki.FileSystem.{FileSystem, FileLaws, Reliable}
use yaoki.FileStore.Payload.{Serde}
use yaoki.FileStore.View.{SerdeLaws, journal_in}
use yaoki.FileStore.Names.{IsBytes, hex_encode-inj}
use yaoki.FileStore.Contract.{file_contract}
use yaoki.FileStore.{path_for, lock_path, file_journal}

module _ {S : Type 0} {fs : FileSystem S} (laws : FileLaws fs) (serde : Serde)
    (serde_laws : SerdeLaws serde) (reliable : Reliable laws) where
  -- Of the files and locks of all executions, only the journal file of one has changed what it stands for, by
  -- events at its end, and it stands for an empty or a readable journal.
  pub record KeepsFiles (id : ExecutionId) (s s' : S) : Type 0 where
    pub others :
        (other : ExecutionId)
        → IsBytes other
        → other ≢ id
        → journal_in serde (laws.contents s' (path_for other))
          ≡ journal_in serde (laws.contents s (path_for other))
    pub locks :
        (other : ExecutionId) → laws.locked s' (lock_path other) ≡ laws.locked s (lock_path other)
    pub own :
        Extends
          (journal_in serde (laws.contents s (path_for id)))
          (journal_in serde (laws.contents s' (path_for id)))
    pub readable : EmptyOrReadable (journal_in serde (laws.contents s' (path_for id)))

  Safe-KeepsFiles :
      (id : ExecutionId) (s s' : S)
      → IsBytes id
      → Safe (file_contract laws serde serde_laws reliable) id s s'
      → KeepsFiles id s s'
  Safe-KeepsFiles id s s' bytes safe = record {
    others = λ other good ne. safe.journals other (λ h. ne (hex_encode-inj other id good bytes h));
    locks = safe.owners;
    own = safe.grows;
    readable = safe.readable;
  }

  -- On the file store, with a `serde_json` that reads what it writes, on a file system that keeps its laws and
  -- where the metadata of every file can be read and every drop of a lease can free its lock (the unlock succeeds,
  -- or no other process has a copy of the handle): whatever the workflow, the failpoints and the outside world do
  -- and whichever opens, reads, writes, truncations, syncs and locks fail, a write in part: a `run`, and a
  -- `recover_and_run` behind it in any environment, change of all that the files of executions stand for only the
  -- journal of their own execution, which at most grows and is empty or readable, and leave every lock as it was.
  -- The identity is made of bytes, and its journal was empty or readable before.
  pub recover_and_run-KeepsFiles :
      {W E : Type 0} (env env' : Environment W) (w : Workflow W E) (input : EventPayload)
      (id : ExecutionId) (s : S) (world world' : W)
      → IsBytes id
      → EmptyOrReadable (journal_in serde (laws.contents s (path_for id)))
      → KeepsFiles id s
          (recover_and_run
            (file_journal fs serde)
            env'
            id
            w
            (run (file_journal fs serde) env id w input s world).1
            world').1
  recover_and_run-KeepsFiles env env' w input id s world world' bytes h =
      let first =
        Safe-KeepsFiles id s _ bytes
          (run-Safe (file_contract laws serde serde_laws reliable) env w input id s world h) in
      let second = Safe-KeepsFiles id _ _ bytes (
        recover_and_run-Safe (file_contract laws serde serde_laws reliable) env' w id
          (run (file_journal fs serde) env id w input s world).1 world' first.readable) in
      record {
        others = λ other good ne. second.others other good ne ∙ first.others other good ne;
        locks = λ other. second.locks other ∙ first.locks other;
        own = Extends-trans _ _ _ first.own second.own;
        readable = second.readable;
      }
