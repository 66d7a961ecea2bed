-- ===== src/FileStore/Writes.antt =====
-- What `append` of src/stores/file.rs does to the file of its execution.
use yaoki.Prelude.{
  ◌++◌, ◌≡◌, ◌⊎◌, inl, inr, refl, sym, Result, ok, err, length, take-length, append-nil, subst,
  arith,
}
use yaoki.Text.{Text, Bytes}
use yaoki.Execution.{ExecutionId}
use yaoki.Seq.{EventOffset}
use yaoki.Journal.{JournalEvent, Journal, JournalError}
use yaoki.Frames.{encode_frame, parse_frames}
use yaoki.Frames.Torn.{good}
use yaoki.FileSystem.{FileSystem, FileLaws}
use yaoki.FileStore.Calls.{pure, lift, ◌>>=◌, attempt}
use yaoki.FileStore.Payload.{Serde, encode, decode_all}
use yaoki.FileStore.Triple.{Triple, Triple-bind, Triple-weaken, Triple-given, Triple-assume}
use yaoki.FileStore.Steps.{Has, HasPart, quiet-Triple, write_all-Triple}
use yaoki.FileStore.Reads.{HasEither, Opened, read_and_heal-Triple}
use yaoki.FileStore.{path_for, read_and_heal, write_frame, append}

module _ {S : Type 0} {fs : FileSystem S} (laws : FileLaws fs) (path : Text) (before : S) where
  none_of :
      (clean written : Bytes) (s : S)
      → Has laws path before clean s
      → HasPart laws path before clean written s
  none_of clean written s h =
      (0, omega arith, subst (λ b. Has laws path before b s) (sym (append-nil clean)) h)

  all_of :
      (clean written : Bytes) (s : S)
      → Has laws path before (clean ++ written) s
      → HasPart laws path before clean written s
  all_of clean written s h = (
    length written,
    omega arith,
    subst (λ b. Has laws path before (clean ++ b) s)
        (sym (take-length (length written) written (omega arith))) h,
  )

  pub write_frame-Triple :
      (clean payload : Bytes)
      → Triple
          (Has laws path before clean)
          (write_frame fs path payload)
          (λ _. Has laws path before (clean ++ encode_frame payload))
          (HasPart laws path before clean (encode_frame payload))
  unfolding write_frame
  write_frame-Triple clean payload =
      Triple-bind (attempt (fs.open_append path)) _
        (Triple-weaken
          (quiet-Triple laws path before clean (fs.open_append path) (laws.open_append_quiet path))
          (λ a s h. h) (none_of clean (encode_frame payload)))
        λ _.
          Triple-bind (attempt (fs.write_all path (encode_frame payload))) _
            (write_all-Triple laws path before clean (encode_frame payload))
            λ _.
              Triple-weaken
                (quiet-Triple laws path before (clean ++ encode_frame payload) (fs.sync_all path)
                  (laws.sync_all_quiet path))
                (λ a s h. h) (all_of clean (encode_frame payload))

module _ {S : Type 0} {fs : FileSystem S} (laws : FileLaws fs) (serde : Serde) (id : ExecutionId)
    (event : JournalEvent) (before : S) (bytes : Bytes) where
  -- The events that were there decode, and the payload is that of the event.
  abbrev pub Ready : Journal → Bytes → Type 0
  Ready events payload =
      (decode_all serde (parse_frames bytes).0 ≡ ok events) × (encode serde event ≡ ok payload)

  abbrev pub Grown : EventOffset → S → Type 0
  Grown offset s =
      (events : Journal) × (payload : Bytes) × Ready events payload
      × (offset ≡ length events)
      × Has laws (path_for id) before (good bytes ++ encode_frame payload) s

  abbrev pub PartlyGrown : S → Type 0
  PartlyGrown s =
      HasEither laws serde (path_for id) before bytes s
      ⊎ ((events : Journal) × (payload : Bytes) × Ready events payload
          × HasPart laws (path_for id) before (good bytes) (encode_frame payload) s)

  encoded-Triple :
      (r : Result Bytes JournalError)
      → Triple
          (Has laws (path_for id) before (good bytes))
          (lift r)
          (λ payload s. (r ≡ ok payload) × Has laws (path_for id) before (good bytes) s)
          PartlyGrown
  encoded-Triple (ok payload) = record { at = λ s h. (refl, h) }
  encoded-Triple (err e) = record { at = λ s h. inl (inr h) }

  written :
      (events : Journal) (payload : Bytes)
      → Ready events payload
      → Triple
          (Has laws (path_for id) before (good bytes))
          (write_frame fs (path_for id) payload >>= λ _. pure (length events))
          Grown
          PartlyGrown
  written events payload r =
      Triple-bind (write_frame fs (path_for id) payload) _
        (Triple-weaken (write_frame-Triple laws (path_for id) before (good bytes) payload)
          (λ a s h. h) (λ s h. inr (events, payload, r, h)))
        λ _. record { at = λ s h. (events, payload, r, refl, h) }

  pub append-Triple :
      Triple
        (Opened laws serde (path_for id) before bytes)
        (append fs serde id event)
        Grown
        PartlyGrown
  unfolding append
  append-Triple =
      Triple-bind (read_and_heal fs serde (path_for id)) _
        (Triple-weaken (read_and_heal-Triple laws serde (path_for id) before bytes) (λ a s h. h)
          (λ s h. inl h))
        λ events.
          Triple-given (λ s h. h.0)
            λ all.
              Triple-bind (lift (encode serde event)) _
                (Triple-assume (λ s h. h.1) (encoded-Triple (encode serde event)))
                λ payload.
                  Triple-given (λ s h. h.0)
                    λ e. Triple-assume (λ s h. h.1) (written events payload (all, e))
