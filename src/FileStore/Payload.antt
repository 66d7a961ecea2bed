-- ===== src/FileStore/Payload.antt =====
-- The payload of a frame of src/stores/file.rs: the record of an event as `serde_json` writes it.
use yaoki.Prelude.{List, [], ◌∷◌, Result, ok, map_err, ◌>>=◌}
use yaoki.Text.{Text, Bytes}
use yaoki.Journal.{JournalEvent, JournalError, codec}
use yaoki.Codec.{JournalEventRecord, Messages, to_record, from_record}

-- `serde_json::to_vec` and `serde_json::from_slice` at `JournalEventRecord`, with the texts of the errors, and the
-- texts of the errors of the validated names.
pub record Serde : Type 0 where
  pub to_vec : JournalEventRecord → Result Bytes Text
  pub from_slice : Bytes → Result JournalEventRecord Text
  pub messages : Messages

module _ (serde : Serde) where
  -- The payload of an event that is appended.
  unfoldable pub encode : JournalEvent → Result Bytes JournalError
  encode event = map_err codec (serde.to_vec (to_record event))

  -- The event of a payload that is read.
  unfoldable pub decode : Bytes → Result JournalEvent JournalError
  decode payload = do
    record_of ← map_err codec (serde.from_slice payload)
    from_record serde.messages record_of

  unfoldable pub decode_all : List Bytes → Result (List JournalEvent) JournalError
  unfolding decode
  decode_all [] = ok []
  decode_all (payload ∷ payloads) = do
    event ← decode payload
    events ← decode_all payloads
    ok (event ∷ events)
