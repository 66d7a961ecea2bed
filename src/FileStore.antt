-- ===== src/FileStore.antt =====
-- `FileJournal` of src/stores/file.rs: one file of frames for each execution, and one lock file. The calls to the
-- operating system are an interface (FileSystem.antt), and so is `serde_json`, which turns the record of
-- an event into bytes and back.
pub mod Calls
pub mod Payload
pub mod Triple
pub mod Steps
pub mod View
pub mod Reads
pub mod Writes
pub mod Unhealed
pub mod Exclusive
pub mod Journals
pub mod Contract
pub mod Laws
pub mod Recovery
pub mod Names
use yaoki.Prelude.{
  ℕ, List, [], ◌∷◌, ◌++◌, Bool, true, false, Result, ok, err, map_err, length, ltb, if◌then◌else◌,
}
use yaoki.Text.{Text, Bytes}
use yaoki.Execution.{ExecutionId}
use yaoki.Seq.{EventOffset}
use yaoki.Journal.{JournalEvent, Journal, JournalError, execution_owned, io}
use yaoki.Journal.Store.{JournalStore}
use yaoki.Numbers.{hex_digits}
use yaoki.Frames.{encode_frame, parse_frames}
use yaoki.FileSystem.{FileSystem, TryLockError, would_block, error}
use yaoki.FileStore.Calls.{Io, pure, lift, ◌>>=◌, ◌>>◌, attempt}
use yaoki.FileStore.Payload.{Serde, encode, decode_all}

unfoldable pub hex_encode : Bytes → Text
hex_encode [] = []
hex_encode (byte ∷ bytes) = hex_digits 2 byte (hex_encode bytes)

abbrev pub io_error : Text → JournalError
io_error source = io source

abbrev pub ownership_error : ExecutionId → TryLockError → JournalError
ownership_error id would_block = execution_owned id
ownership_error id (error e) = io_error e

-- `{}.journal` and `{}.lock`
abbrev pub path_for : ExecutionId → Text
path_for id = hex_encode id ++ (b'.' ∷ b'j' ∷ b'o' ∷ b'u' ∷ b'r' ∷ b'n' ∷ b'a' ∷ b'l' ∷ [])

abbrev pub lock_path : ExecutionId → Text
lock_path id = hex_encode id ++ (b'.' ∷ b'l' ∷ b'o' ∷ b'c' ∷ b'k' ∷ [])

module _ {S : Type 0} (fs : FileSystem S) where
  -- The file is cut back to its good frames if there is anything behind them.
  unfoldable pub heal : Text → Bytes → ℕ → Io S (Unit {0})
  heal path bytes good_len =
      if ltb good_len (length bytes)
      then (do
        attempt (fs.open_write path)
        attempt (fs.set_len path good_len)
        attempt (fs.sync_all path))
      else pure tt

  -- From the opening of the file on.
  unfoldable pub write_frame : Text → Bytes → Io S (Unit {0})
  write_frame path payload = do
    attempt (fs.open_append path)
    attempt (fs.write_all path (encode_frame payload))
    attempt (fs.sync_all path)

  unfoldable pub acquire : ExecutionId → Io S (Unit {0})
  acquire id = do
    attempt (fs.open_lock (lock_path id))
    λ s. let (r, s') = fs.try_lock (lock_path id) s in (map_err (ownership_error id) r, s')

  -- The drop of a lease: it is unlocked, and its handle is closed.
  unfoldable pub release : ExecutionId → S → S
  release id s = fs.close (lock_path id) (fs.unlock (lock_path id) s).1

module _ {S : Type 0} (fs : FileSystem S) (serde : Serde) where
  -- Behind the test that the file is there.
  unfoldable pub read_existing : Text → Io S (List JournalEvent)
  unfolding heal
  read_existing path = do
    bytes ← attempt (fs.read path)
    let (payloads, good_len) = parse_frames bytes
    events ← lift (decode_all serde payloads)
    heal fs path bytes good_len
    pure events

  unfoldable pub read_and_heal : Text → Io S (List JournalEvent)
  unfolding read_existing
  read_and_heal path s = if fs.exists path s then read_existing path s else (ok [], s)

  unfoldable pub append : ExecutionId → JournalEvent → Io S EventOffset
  unfolding read_and_heal write_frame
  append id event = do
    existing ← read_and_heal (path_for id)
    payload ← lift (encode serde event)
    write_frame fs (path_for id) payload
    pure (length existing)

  unfoldable pub load : ExecutionId → Io S Journal
  unfolding read_and_heal
  load id = read_and_heal (path_for id)

  abbrev pub file_journal : JournalStore S
  file_journal = record { acquire = acquire fs; release = release fs; append = append; load = load }
