-- ===== src/Tests/Files.antt =====
-- The library's theorems on frames and on files: a file that ends in a torn frame, on a file system that fails by a
-- plan.
use yaoki.Prelude.{
  [], ◌∷◌, ◌++◌, ◌≡◌, ◌≢◌, ◌⊎◌, ◌≤◌, ◌<◌, refl, inl, true, false, none, some, List, ok, err, length,
  take, drop, arith, ap, list_eq, nat_eq,
}
use yaoki.Text.{Text, Bytes}
use yaoki.Journal.{JournalEvent, JournalError}
use yaoki.Journal.Store.{Appended}
use yaoki.Crc.{crc32}
use yaoki.Numbers.{from_str_radix, hex_digits, decimal}
use yaoki.Frames.{encode_frame, parse_one_frame, parse_frames}
use yaoki.Frames.Shape.{Frame, frame_size}
use yaoki.Frames.RoundTrip.{parse_one_frame-encode_frame, parse_one_frame-torn}
use yaoki.Frames.Torn.{
  encode_frames, parse_one_frame-Frame, parse_frames-stop, parse_frames-heal, parse_frames-torn,
}
use yaoki.FileStore.{path_for, lock_path, append, load, acquire, release, file_journal}
use yaoki.FileStore.Payload.{decode_all}
use yaoki.FileStore.View.{journal_in}
use yaoki.FileStore.Names.{path_for-distinct}
use yaoki.FileStore.Laws.{Loads, append-Appended, load-append_file, load-heal}
use yaoki.FileStore.Unhealed.{Unhealed}
use yaoki.FileStore.Exclusive.{
  Operation, acquires, appends, loads, releases, perform_all, acquire-perform_all,
}
use yaoki.FileSystem.{Keeps}
use yaoki.FileStore.Recovery.{KeepsFiles, recover_and_run-KeepsFiles}
use yaoki.Engine.Run.{run, recover_and_run}
use yaoki.Tests.{World, environment, world, workflow, id, charge_renewal, charge_renewal-step_name}
use yaoki.Tests.Disk.{Disk, disk, works, fails, bytes_of, set}
use yaoki.Tests.Disk.Laws.{disk_laws, disk-Reliable}
use yaoki.Tests.Json.{json, json_laws, write}
use yaoki.Codec.{to_record}

-- A payload, and another whose frame is cut short.
abbrev first : Bytes
first = b'o' ∷ b'n' ∷ b'e' ∷ []

abbrev second : Bytes
second = b't' ∷ b'w' ∷ b'o' ∷ []

-- `{crc}:3:one` and a line feed.
frame_of_first :
    encode_frame first
    ≡ b'7' ∷ b'a' ∷ b'6' ∷ b'c' ∷ b'8' ∷ b'6' ∷ b'f' ∷ b'1' ∷ b':' ∷ b'3' ∷ b':' ∷ b'o' ∷ b'n'
      ∷ b'e' ∷ b'\n' ∷ []
unfolding encode_frame crc32 yaoki.Crc.crc32_bytes yaoki.Crc.crc32_table hex_digits
    yaoki.Numbers.decimal_digits
frame_of_first = refl

-- A file with the event of a charge, and the part of a frame.
abbrev recorded : Bytes
recorded = write (to_record (JournalEvent.step_completed 0 (7 ∷ [])))

abbrev torn_file : Bytes
torn_file = encode_frame recorded ++ take 7 (encode_frame second)

abbrev torn_disk : Disk
torn_disk = record {
  files = set (λ name. none) (path_for id) (some torn_file);
  locks = λ name. false;
  plan = [];
}

-- The next frame is cut short by a full device, and the sync after it is not reached.
abbrev full_disk : Disk
full_disk = record torn_disk { plan = works ∷ works ∷ works ∷ works ∷ works ∷ fails 9 ∷ [] }

parse_one_frame-Frame_example :
    (parse_one_frame (encode_frame first) ≡ some (first, 15)
      → (rest : Bytes) × (f : Frame (encode_frame first) first rest) × (15 ≡ frame_size f))
    × ((rest : Bytes) (f : Frame (encode_frame first) first rest)
        → 15 ≡ frame_size f
        → parse_one_frame (encode_frame first) ≡ some (first, 15))
parse_one_frame-Frame_example = parse_one_frame-Frame (encode_frame first) first 15

parse_one_frame-encode_frame_example :
    parse_one_frame (encode_frame first ++ second) ≡ some (first, length (encode_frame first))
parse_one_frame-encode_frame_example = parse_one_frame-encode_frame first second (omega arith)

parse_one_frame-torn_example : parse_one_frame (take 14 (encode_frame first)) ≡ none
parse_one_frame-torn_example = parse_one_frame-torn first 14 (omega arith) (
    let short : 14 < length (encode_frame first) = omega (arith, ap length frame_of_first) in short)

parse_frames-stop_example :
    ((parse_frames torn_file).1 ≤ length torn_file)
    × (parse_one_frame (drop (parse_frames torn_file).1 torn_file) ≡ none)
parse_frames-stop_example = parse_frames-stop torn_file

parse_frames-heal_example :
    parse_frames (take (parse_frames torn_file).1 torn_file) ≡ parse_frames torn_file
parse_frames-heal_example = parse_frames-heal torn_file

parse_frames-torn_example :
    parse_frames (encode_frames (second ∷ first ∷ []) ++ take 9 (encode_frame first))
    ≡ (second ∷ first ∷ [], length (encode_frames (second ∷ first ∷ [])))
parse_frames-torn_example =
    parse_frames-torn (second ∷ first ∷ []) first 9 (omega arith) (omega arith)
      (omega (arith, ap length frame_of_first))

path_for-distinct_example :
    (path_for (1 ∷ 2 ∷ []) ≢ path_for (1 ∷ 3 ∷ []))
    × (lock_path (1 ∷ 2 ∷ []) ≢ lock_path (1 ∷ 3 ∷ []))
path_for-distinct_example =
    path_for-distinct (1 ∷ 2 ∷ []) (1 ∷ 3 ∷ []) (omega arith) (omega arith) (λ h. cc)

append-Appended_example :
    Appended
      (journal_in json (bytes_of full_disk (path_for id)))
      (JournalEvent.step_scheduled 1 charge_renewal)
      (append disk json id (JournalEvent.step_scheduled 1 charge_renewal) full_disk).0
      (journal_in json (
        bytes_of
          (append disk json id (JournalEvent.step_scheduled 1 charge_renewal) full_disk).1
          (path_for id)))
    ⊎ ((disk.exists (path_for id) full_disk ≡ false)
        × (false ≡ true)
        × Unhealed json
            (bytes_of full_disk (path_for id))
            (JournalEvent.step_scheduled 1 charge_renewal)
            (append disk json id (JournalEvent.step_scheduled 1 charge_renewal) full_disk).0
            (bytes_of
              (append disk json id (JournalEvent.step_scheduled 1 charge_renewal) full_disk).1
              (path_for id)))
append-Appended_example =
    append-Appended disk_laws json json_laws id (JournalEvent.step_scheduled 1 charge_renewal)
      full_disk charge_renewal-step_name

-- The append to the torn file succeeds behind the one event that is whole.
appended_behind : (append disk json id (JournalEvent.step_completed 1 (9 ∷ [])) torn_disk).0 ≡ ok 1
unfolding append yaoki.FileStore.Calls.◌>>=◌ yaoki.FileStore.hex_encode hex_digits
    yaoki.FileStore.Payload.decode_all parse_frames encode_frame yaoki.Numbers.decimal_digits write
    to_record crc32 from_str_radix yaoki.Tests.Json.read yaoki.Codec.from_record
    yaoki.FileStore.Payload.encode yaoki.Tests.Json.checked
appended_behind = refl

load-append_file_example :
    Loads
      (journal_in json (bytes_of torn_disk (path_for id))
        ++ JournalEvent.step_completed 1 (9 ∷ []) ∷ [])
      (load disk json id
        (append disk json id (JournalEvent.step_completed 1 (9 ∷ [])) torn_disk).1).0
    ⊎ ((false ≡ true)
        × (load disk json id
              (append disk json id (JournalEvent.step_completed 1 (9 ∷ [])) torn_disk).1
            ≡ (ok [], (append disk json id (JournalEvent.step_completed 1 (9 ∷ [])) torn_disk).1)))
load-append_file_example =
    load-append_file disk_laws json json_laws id (JournalEvent.step_completed 1 (9 ∷ [])) torn_disk
      1 tt refl appended_behind

-- The load of the torn file gives the event that is whole.
loaded_before : (load disk json id torn_disk).0 ≡ ok (JournalEvent.step_completed 0 (7 ∷ []) ∷ [])
unfolding load yaoki.FileStore.hex_encode hex_digits yaoki.FileStore.Calls.◌>>=◌ decode_all
    parse_frames encode_frame yaoki.Numbers.decimal_digits write to_record crc32 from_str_radix
    yaoki.Tests.Json.read yaoki.Codec.from_record
loaded_before = refl

load-heal_example :
    (((bytes_of (load disk json id torn_disk).1 (path_for id)
          ≡ take
              (parse_frames (bytes_of torn_disk (path_for id))).1
              (bytes_of torn_disk (path_for id)))
        × (decode_all json (parse_frames (bytes_of torn_disk (path_for id))).0
            ≡ ok (JournalEvent.step_completed 0 (7 ∷ []) ∷ [])))
      ⊎ ((false ≡ true)
          × (JournalEvent.step_completed 0 (7 ∷ []) ∷ [] ≡ [])
          × (bytes_of (load disk json id torn_disk).1 (path_for id)
              ≡ bytes_of torn_disk (path_for id))))
    × ((other : Text)
        → other ≢ path_for id
        → bytes_of (load disk json id torn_disk).1 other ≡ bytes_of torn_disk other)
    × ((other : Text) → (load disk json id torn_disk).1.locks other ≡ torn_disk.locks other)
load-heal_example =
    load-heal disk_laws json json_laws id torn_disk (JournalEvent.step_completed 0 (7 ∷ []) ∷ [])
      loaded_before

-- Another caller asks for the stream, writes and reads, and gives another stream back.
abbrev calls : List Operation
calls =
    acquires id
    ∷ appends id (JournalEvent.step_scheduled 1 charge_renewal)
    ∷ loads id
    ∷ releases (7 ∷ [])
    ∷ acquires id
    ∷ []

acquired_torn : (acquire disk id torn_disk).0 ≡ ok tt
unfolding acquire yaoki.FileStore.Calls.◌>>=◌
acquired_torn = refl

acquire-perform_all_example :
    ((acquire disk id (perform_all disk json calls (acquire disk id torn_disk).1)).0 ≢ ok tt)
    × (((acquire disk id
            (release disk id (perform_all disk json calls (acquire disk id torn_disk).1))).0
          ≢ err (JournalError.execution_owned id))
        ⊎ Keeps disk_laws
            (lock_path id)
            (perform_all disk json calls (acquire disk id torn_disk).1))
acquire-perform_all_example =
    acquire-perform_all disk_laws json json_laws id (omega arith) calls torn_disk acquired_torn
      (tt, (tt, (tt, ((omega arith, λ h. cc), (tt, tt)))))

-- No file is there yet, and the fourth call fails.
abbrev blank_disk : Disk
blank_disk = record {
  files = λ name. none;
  locks = λ name. false;
  plan = works ∷ works ∷ works ∷ fails 0 ∷ [];
}

recover_and_run-KeepsFiles_example :
    KeepsFiles disk_laws json json_laws disk-Reliable id blank_disk
      (recover_and_run
        (file_journal disk json)
        environment
        id
        workflow
        (run (file_journal disk json) environment id workflow (3 ∷ []) blank_disk world).1
        world).1
unfolding yaoki.FileStore.View.decoded parse_frames
recover_and_run-KeepsFiles_example =
    recover_and_run-KeepsFiles disk_laws json json_laws disk-Reliable environment environment
      workflow (3 ∷ []) id blank_disk world world (omega arith) (inl refl)
