-- ===== src/FileStore/Laws.antt =====
-- How the operations of src/stores/file.rs meet: what a load gives after an append, and what it leaves of a
-- torn file.
use yaoki.Prelude.{
  ℕ, [], ◌∷◌, ◌++◌, ◌≡◌, ◌≢◌, ◌⊎◌, inl, inr, refl, ◌∙◌, subst, true, false, Result, ok, err,
  map_err, Result-cases, length, take, ap, Bool-cases, ltb,
}
use yaoki.Text.{Text, Bytes}
use yaoki.Execution.{ExecutionId}
use yaoki.Journal.{JournalEvent, Journal, JournalError, io}
use yaoki.Journal.WellFormed.{IsWellFormed}
use yaoki.Journal.Store.{Appended}
use yaoki.Frames.{parse_frames}
use yaoki.FileSystem.{FileSystem, FileLaws, Stated, Stated-cases, Stated-readable}
use yaoki.FileStore.Calls.{Io, pure, ◌>>=◌, attempt}
use yaoki.FileStore.Payload.{Serde, decode_all}
use yaoki.FileStore.View.{SerdeLaws, journal_in, decode_all-snoc, decode-encode, parsed-whole}
use yaoki.FileStore.Triple.{Ends}
use yaoki.FileStore.Reads.{Healed, HasEither}
use yaoki.FileStore.Writes.{Grown, PartlyGrown}
use yaoki.FileStore.Journals.{starts, append-Ends, appended, load-Ends, load_loaded}
use yaoki.FileStore.Unhealed.{Unhealed, append-Unhealed, load_hidden}
use yaoki.FileStore.{path_for, heal, read_existing, read_and_heal, append, load}

-- A failure that the operating system has reported.
abbrev pub IsIo : JournalError → Type 0
IsIo (io message) = Unit
IsIo _ = ⊥

abbrev FailsByIo : {A : Type 0} → Result A JournalError → Type 0
FailsByIo (ok a) = Unit
FailsByIo (err e) = IsIo e

-- A load that gives one journal, or reports a failure of the operating system.
abbrev pub Loads : Journal → Result Journal JournalError → Type 0
Loads journal (ok found) = found ≡ journal
Loads journal (err e) = IsIo e

module _ {S : Type 0} where
  attempt-FailsByIo :
      {A : Type 0} (call : S → Result A Text × S) (s : S) → FailsByIo (attempt call s).0
  attempt-FailsByIo call s = elim (Result-cases (call s).0) [
    | inl (a, e) ↦ rw e tt
    | inr (x, e) ↦ rw e tt
  ]

  bind-FailsByIo :
      {A B : Type 0} (m : Io S A) (f : A → Io S B) (s : S)
      → FailsByIo (m s).0
      → ((a : A) → (m s).0 ≡ ok a → FailsByIo (f a (m s).1).0)
      → FailsByIo ((m >>= f) s).0
  unfolding ◌>>=◌
  bind-FailsByIo m f s h k = elim (Result-cases (m s).0) [
    | inl (a, e) ↦ rw e (k a e)
    | inr (x, e) ↦ rw e (subst FailsByIo e h)
  ]

module _ {S : Type 0} {fs : FileSystem S} (laws : FileLaws fs) (serde : Serde) where
  heal-FailsByIo :
      (path : Text) (bytes : Bytes) (n : ℕ) (s : S) → FailsByIo (heal fs path bytes n s).0
  unfolding heal
  heal-FailsByIo path bytes n s = elim (Bool-cases (ltb n (length bytes))) [
    | inl e ↦ rw e (
        bind-FailsByIo (attempt (fs.open_write path)) _ s (attempt-FailsByIo (fs.open_write path) s)
          λ a _.
            bind-FailsByIo (attempt (fs.set_len path n)) _ _
              (attempt-FailsByIo (fs.set_len path n) _)
              λ a _. attempt-FailsByIo (fs.sync_all path) _)
    | inr e ↦ rw e tt
  ]

  read_ok : (r : Result Bytes Text) (found : Bytes) → map_err io r ≡ ok found → r ≡ ok found
  read_ok (ok b) found h = cc
  read_ok (err e) found h = cc

  -- Where every payload decodes, only the operating system can make a load fail.
  load-FailsByIo :
      (id : ExecutionId) (s : S) (events : Journal)
      → decode_all serde (parse_frames (laws.contents s (path_for id))).0 ≡ ok events
      → FailsByIo (load fs serde id s).0
  unfolding load read_and_heal read_existing ◌>>=◌
  load-FailsByIo id s events all = elim (Bool-cases (fs.exists (path_for id) s)) [
    | inr e ↦ rw e tt
    | inl e ↦ rw e (
        bind-FailsByIo (attempt (fs.read (path_for id))) _ s
          (attempt-FailsByIo (fs.read (path_for id)) s)
          λ found got.
            let same : found ≡ laws.contents s (path_for id) =
              laws.read_lem (path_for id) s found (read_ok (fs.read (path_for id) s).0 found got) in
            rw (same, all, ◌>>=◌)
              (bind-FailsByIo (heal fs (path_for id) _ _) (λ _. pure events) _
                (heal-FailsByIo (path_for id) _ _ _) λ a _. tt))
  ]

module _ {S : Type 0} {fs : FileSystem S} (laws : FileLaws fs) (serde : Serde)
    (serde_laws : SerdeLaws serde) where
  -- On a file system that keeps its laws, with a `serde_json` that reads what it writes: whatever calls fail, an
  -- append to the file store leaves a file that stands for the journal before or for that journal with the event
  -- at its end. When the append succeeds it is the latter, and the offset is the length of the journal before.
  -- There is one other case: `Path::exists` is false because the metadata of the file cannot be read. Then nothing
  -- is healed: the bytes before stay as they are, a torn tail included, with the frame of the event behind them,
  -- or a part of it when the append fails, and a success reports the offset 0. The event's names and attempts have
  -- to be what their constructors accept.
  pub append-Appended :
      (id : ExecutionId) (event : JournalEvent) (s : S)
      → IsWellFormed event
      → Appended
          (journal_in serde (laws.contents s (path_for id)))
          event
          (append fs serde id event s).0
          (journal_in serde (laws.contents (append fs serde id event s).1 (path_for id)))
        ⊎ ((fs.exists (path_for id) s ≡ false)
            × (laws.unreadable s (path_for id) ≡ true)
            × Unhealed serde
                (laws.contents s (path_for id))
                event
                (append fs serde id event s).0
                (laws.contents (append fs serde id event s).1 (path_for id)))
  append-Appended id event s valid = elim (Stated-cases laws (path_for id) s) [
    | inl stated ↦ inl (
        appended laws serde serde_laws id event s _ _ valid
          (append-Ends laws serde serde_laws id event s stated))
    | inr (e, hidden) ↦ inr (
      e,
      hidden,
      (append-Unhealed laws serde id s _ event (starts laws serde serde_laws id s, e)).0,
    )
  ]

  loaded_or_failed :
      (r : Result Journal JournalError) (journal : Journal)
      → ((found : Journal) → r ≡ ok found → found ≡ journal)
      → FailsByIo r
      → Loads journal r
  loaded_or_failed (ok found) journal h f = h found refl
  loaded_or_failed (err e) journal h f = f

  decodes_after :
      (id : ExecutionId) (event : JournalEvent) (before s : S) (offset : ℕ)
      → IsWellFormed event
      → Grown laws serde id event before (laws.contents before (path_for id)) offset s
      → (events : Journal) × (decode_all serde (parse_frames (laws.contents s (path_for id))).0
          ≡ ok events)
  decodes_after id event before s offset valid (events, payload, (all, e), count, h) =
      let (fits, reads) = decode-encode serde event payload serde_laws e in
      (
        events ++ event ∷ [],
        rw (h.here, parsed-whole (laws.contents before (path_for id)) payload fits)
            (decode_all-snoc serde _ payload (reads valid) all),
      )

  -- On a file system that keeps its laws, with a `serde_json` that reads what it writes: once an append to the
  -- file store has succeeded on a file whose metadata can be read, a load gives the journal before with the event
  -- at its end, or the operating system has failed again: a call reports an error, or the metadata can no longer
  -- be read and the load gives no event and changes nothing. It never reports a payload that does not decode. The
  -- event's names and attempts have to be what their constructors accept.
  pub load-append_file :
      (id : ExecutionId) (event : JournalEvent) (s : S) (offset : ℕ)
      → IsWellFormed event
      → laws.unreadable s (path_for id) ≡ false
      → (append fs serde id event s).0 ≡ ok offset
      → Loads
          (journal_in serde (laws.contents s (path_for id)) ++ event ∷ [])
          (load fs serde id (append fs serde id event s).1).0
        ⊎ ((laws.unreadable (append fs serde id event s).1 (path_for id) ≡ true)
            × (load fs serde id (append fs serde id event s).1
                ≡ (ok [], (append fs serde id event s).1)))
  load-append_file id event s offset valid plain done =
      let grown : Grown laws serde id event s (laws.contents s (path_for id)) offset after =
        subst
          (λ r.
            Ends (Grown laws serde id event s (laws.contents s (path_for id)))
              (PartlyGrown laws serde id event s (laws.contents s (path_for id))) r after)
          done (append-Ends laws serde serde_laws id event s stated) in
      let (events, all) = decodes_after id event s after offset valid grown in
      let (_, journal) =
        subst
          (λ r.
            Appended (journal_in serde (laws.contents s (path_for id))) event r
              (journal_in serde (laws.contents after (path_for id))))
          done
          (appended laws serde serde_laws id event s _ _ valid
            (append-Ends laws serde serde_laws id event s stated)) in
      elim (Stated-cases laws (path_for id) after) [
        | inl still ↦ inl (
            loaded_or_failed (load fs serde id after).0 _
              (λ found e. (load_loaded laws serde serde_laws id after still).0 found e ∙ journal)
              (load-FailsByIo laws serde id after events all))
        | inr (e, hidden) ↦ inr (hidden, load_hidden fs serde id after e)
      ]
    where
      after : S
      after = (append fs serde id event s).1

      stated : Stated laws (path_for id) s
      stated = Stated-readable laws (path_for id) s plain

  -- On a file system that keeps its laws, with a `serde_json` that reads what it writes: a load that succeeds has
  -- cut the file of the execution back to its good frames and returns the events of all of these; or the metadata
  -- of the file cannot be read, and the load has returned no event and left the file as it was. In both cases it
  -- has changed no other file and no lock.
  pub load-heal :
      (id : ExecutionId) (s : S) (journal : Journal)
      → (load fs serde id s).0 ≡ ok journal
      → (((laws.contents (load fs serde id s).1 (path_for id)
              ≡ take
                  (parse_frames (laws.contents s (path_for id))).1
                  (laws.contents s (path_for id)))
            × (decode_all serde (parse_frames (laws.contents s (path_for id))).0 ≡ ok journal))
          ⊎ ((laws.unreadable s (path_for id) ≡ true)
              × (journal ≡ [])
              × (laws.contents (load fs serde id s).1 (path_for id)
                  ≡ laws.contents s (path_for id))))
        × ((other : Text)
            → other ≢ path_for id
            → laws.contents (load fs serde id s).1 other ≡ laws.contents s other)
        × ((other : Text) → laws.locked (load fs serde id s).1 other ≡ laws.locked s other)
  load-heal id s journal done = elim (Stated-cases laws (path_for id) s) [
    | inl stated ↦
        (let (all, h) =
            subst
              (λ r.
                Ends (Healed laws serde (path_for id) s (laws.contents s (path_for id)))
                  (HasEither laws serde (path_for id) s (laws.contents s (path_for id))) r
                  (load fs serde id s).1)
              done (load-Ends laws serde serde_laws id s stated) in
          (inl (h.here, all), h.others, h.locks))
    | inr (e, hidden) ↦
        (let same = load_hidden fs serde id s e in
          (
            inr (
              hidden,
              (let none_read : journal ≡ [] = cc (ap (λ r. r.0) same, done) in none_read),
              ap (λ r. laws.contents r.1 (path_for id)) same,
            ),
            λ other ne. ap (λ r. laws.contents r.1 other) same,
            λ other. ap (λ r. laws.locked r.1 other) same,
          ))
  ]
