-- ===== src/FileStore/Unhealed.antt =====
-- `append` and `load` of src/stores/file.rs where `Path::exists` answers that there is no file: `read_and_heal` then
-- returns no event and cuts nothing off.
use yaoki.Prelude.{ℕ, [], ◌++◌, ◌≡◌, ◌≤◌, ◌⊎◌, inl, inr, refl, false, Result, ok, err, length, take}
use yaoki.Text.{Bytes}
use yaoki.Execution.{ExecutionId}
use yaoki.Seq.{EventOffset}
use yaoki.Journal.{JournalEvent, JournalError}
use yaoki.Frames.{encode_frame}
use yaoki.FileSystem.{FileSystem, FileLaws}
use yaoki.FileStore.Calls.{pure, lift, ◌>>=◌}
use yaoki.FileStore.Payload.{Serde, encode}
use yaoki.FileStore.Triple.{Triple, Ends, Triple-bind, Triple-weaken, Triple-given, Triple-assume}
use yaoki.FileStore.Steps.{Has, HasPart}
use yaoki.FileStore.Writes.{write_frame-Triple}
use yaoki.FileStore.{path_for, read_and_heal, write_frame, append, load}

-- What an append has made of a file that it took for one that is not there: the frame, or a part of it, is behind
-- the bytes as they were, and the offset is that of a first event.
abbrev pub Unhealed :
    Serde → Bytes → JournalEvent → Result EventOffset JournalError → Bytes → Type 0
Unhealed serde before event (ok offset) after =
    (payload : Bytes) × (encode serde event ≡ ok payload)
    × (offset ≡ 0)
    × (after ≡ before ++ encode_frame payload)
Unhealed serde before event (err e) after =
    (after ≡ before)
    ⊎ ((payload : Bytes) × (k : ℕ) × (encode serde event ≡ ok payload)
        × (k ≤ length (encode_frame payload))
        × (after ≡ before ++ take k (encode_frame payload)))

module _ {S : Type 0} {fs : FileSystem S} (laws : FileLaws fs) (serde : Serde) (id : ExecutionId)
    (before : S) (bytes : Bytes) where
  abbrev pub Hidden : S → Type 0
  Hidden s = Has laws (path_for id) before bytes s × (fs.exists (path_for id) s ≡ false)

  read_and_heal-Hidden :
      Triple Hidden
        (read_and_heal fs serde (path_for id))
        (λ events s. (events ≡ []) × Has laws (path_for id) before bytes s)
        (Has laws (path_for id) before bytes)
  unfolding read_and_heal
  read_and_heal-Hidden = record { at = λ s (h, e). rw e (refl, h) }

  module _ (event : JournalEvent) where
    abbrev Grown : EventOffset → S → Type 0
    Grown offset s =
        (payload : Bytes) × (encode serde event ≡ ok payload)
        × (offset ≡ 0)
        × Has laws (path_for id) before (bytes ++ encode_frame payload) s

    abbrev PartlyGrown : S → Type 0
    PartlyGrown s =
        Has laws (path_for id) before bytes s
        ⊎ ((payload : Bytes) × (encode serde event ≡ ok payload)
            × HasPart laws (path_for id) before bytes (encode_frame payload) s)

    encoded-Triple :
        (r : Result Bytes JournalError)
        → Triple
            (Has laws (path_for id) before bytes)
            (lift r)
            (λ payload s. (r ≡ ok payload) × Has laws (path_for id) before bytes s)
            PartlyGrown
    encoded-Triple (ok payload) = record { at = λ s h. (refl, h) }
    encoded-Triple (err e) = record { at = λ s h. inl h }

    written :
        (payload : Bytes)
        → encode serde event ≡ ok payload
        → Triple
            (Has laws (path_for id) before bytes)
            (write_frame fs (path_for id) payload >>= λ _. pure 0)
            Grown
            PartlyGrown
    written payload e =
        Triple-bind (write_frame fs (path_for id) payload) _
          (Triple-weaken (write_frame-Triple laws (path_for id) before bytes payload) (λ a s h. h)
            (λ s h. inr (payload, e, h)))
          λ _. record { at = λ s h. (payload, e, refl, h) }

    append-Hidden : Triple Hidden (append fs serde id event) Grown PartlyGrown
    unfolding append
    append-Hidden =
        Triple-bind (read_and_heal fs serde (path_for id)) _
          (Triple-weaken read_and_heal-Hidden (λ a s h. h) (λ s h. inl h))
          λ events.
            Triple-given (λ s h. h.0)
              λ none_read. rw none_read (
                Triple-bind (lift (encode serde event)) _
                  (Triple-assume (λ s h. h.1) (encoded-Triple (encode serde event)))
                  λ payload.
                    Triple-given (λ s h. h.0) λ e. Triple-assume (λ s h. h.1) (written payload e))

    -- An append that takes the file for one that is not there.
    Ends-Unhealed :
        (r : Result EventOffset JournalError) (s : S)
        → Ends Grown PartlyGrown r s
        → Unhealed serde bytes event r (laws.contents s (path_for id))
          × ((after : Bytes) × Has laws (path_for id) before after s)
    Ends-Unhealed (ok offset) s (payload, e, first, h) = ((payload, e, first, h.here), (_, h))
    Ends-Unhealed (err x) s (inl h) = (inl h.here, (_, h))
    Ends-Unhealed (err x) s (inr (payload, e, (k, le, h))) =
        (inr (payload, k, e, le, h.here), (_, h))

    pub append-Unhealed :
        Hidden before
        → Unhealed serde bytes event
            (append fs serde id event before).0
            (laws.contents (append fs serde id event before).1 (path_for id))
          × ((after : Bytes) × Has laws
                (path_for id)
                before
                after
                (append fs serde id event before).1)
    append-Unhealed h = Ends-Unhealed _ _ (append-Hidden.at before h)

module _ {S : Type 0} (fs : FileSystem S) (serde : Serde) where
  pub load_hidden :
      (id : ExecutionId) (s : S)
      → fs.exists (path_for id) s ≡ false
      → load fs serde id s ≡ (ok [], s)
  unfolding load read_and_heal
  load_hidden id s e = rw e refl
