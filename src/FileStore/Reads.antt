-- ===== src/FileStore/Reads.antt =====
-- What `read_and_heal` of src/stores/file.rs does to the file that it reads.
use yaoki.Prelude.{
  List, [], ◌≡◌, ◌⊎◌, inl, inr, refl, sym, ◌∙◌, ap, Result, ok, err, Bool-cases, ltb, length, take,
  take-length, subst, arith,
}
use yaoki.Text.{Text, Bytes}
use yaoki.Journal.{JournalEvent, JournalError}
use yaoki.Frames.{parse_frames}
use yaoki.Frames.Loop.{parse_one_frame-nil, parse_frames_eq}
use yaoki.Frames.Torn.{good}
use yaoki.FileSystem.{FileSystem, FileLaws, Stated}
use yaoki.FileStore.Calls.{pure, lift, ◌>>=◌, attempt}
use yaoki.FileStore.Payload.{Serde, decode_all}
use yaoki.FileStore.Triple.{Triple, Triple-bind, Triple-weaken, Triple-given, Triple-assume}
use yaoki.FileStore.Steps.{Has, quiet-Triple, read-Triple, set_len-Triple}
use yaoki.FileStore.{heal, read_existing, read_and_heal}

module _ {S : Type 0} {fs : FileSystem S} (laws : FileLaws fs) (serde : Serde) (path : Text)
    (before : S) (bytes : Bytes) where
  -- The file as it was, or cut back to its good frames.
  abbrev pub HasEither : S → Type 0
  HasEither s = Has laws path before bytes s ⊎ Has laws path before (good bytes) s

  heal-Triple :
      Triple
        (Has laws path before bytes)
        (heal fs path bytes (parse_frames bytes).1)
        (λ _. Has laws path before (good bytes))
        HasEither
  unfolding heal
  heal-Triple = elim (Bool-cases (ltb (parse_frames bytes).1 (length bytes))) [
    | inl e ↦ rw e (
        Triple-bind (attempt (fs.open_write path)) _
          (Triple-weaken
            (quiet-Triple laws path before bytes (fs.open_write path) (laws.open_write_quiet path))
            (λ a s h. h) (λ s h. inl h))
          λ _.
            Triple-bind (attempt (fs.set_len path (parse_frames bytes).1)) _
              (set_len-Triple laws path before bytes (parse_frames bytes).1)
              λ _.
                Triple-weaken
                  (quiet-Triple laws path before (good bytes) (fs.sync_all path)
                    (laws.sync_all_quiet path))
                  (λ a s h. h) (λ s h. inr h))
    | inr e ↦ rw e (record {
      at = λ s h.
          subst (λ b. Has laws path before b s)
            (sym (take-length (parse_frames bytes).1 bytes (ground (arith, e)))) h;
    })
  ]

  -- Every payload has decoded, and nothing stands behind the frames.
  abbrev pub Healed : List JournalEvent → S → Type 0
  Healed events s =
      (decode_all serde (parse_frames bytes).0 ≡ ok events) × Has laws path before (good bytes) s

  lift-Triple :
      (r : Result (List JournalEvent) JournalError)
      → Triple
          (Has laws path before bytes)
          (lift r)
          (λ events s. (r ≡ ok events) × Has laws path before bytes s)
          HasEither
  lift-Triple (ok events) = record { at = λ s h. (refl, h) }
  lift-Triple (err e) = record { at = λ s h. inl h }

  finish :
      (events : List JournalEvent)
      → Triple
          (λ s.
            (decode_all serde (parse_frames bytes).0 ≡ ok events) × Has laws path before bytes s)
          (heal fs path bytes (parse_frames bytes).1 >>= λ _. pure events)
          Healed
          HasEither
  finish events =
      Triple-given (λ s h. h.0)
        λ all.
          Triple-bind (heal fs path bytes (parse_frames bytes).1) _
            (Triple-assume (λ s h. h.1) heal-Triple) λ _. record { at = λ s h. (all, h) }

  read_existing-Triple :
      Triple (Has laws path before bytes) (read_existing fs serde path) Healed HasEither
  unfolding read_existing
  read_existing-Triple =
      Triple-bind (attempt (fs.read path)) _
        (Triple-weaken (read-Triple laws path before bytes) (λ a s h. h) (λ s h. inl h))
        λ found.
          Triple-given (λ s h. h.0)
            λ same. rw same (
              Triple-assume (λ s h. h.1)
                (Triple-bind (lift (decode_all serde (parse_frames bytes).0)) _
                  (lift-Triple (decode_all serde (parse_frames bytes).0)) λ events. finish events))

  -- A file that is not there has no frames.
  absent : (s : S) → bytes ≡ [] → Has laws path before bytes s → Healed [] s
  unfolding decode_all
  absent s none_here h =
      let nothing : parse_frames bytes ≡ ([], 0) =
        ap parse_frames none_here ∙ parse_frames_eq [] [] 0 (refl, parse_one_frame-nil) in
      (
        ap (λ r. decode_all serde r.0) nothing ∙ refl,
        subst (λ b. Has laws path before b s) (none_here ∙ sym (ap (λ r. take r.1 bytes) nothing))
            h,
      )

  -- The file before the test that it is there, where the test can be believed.
  abbrev pub Opened : S → Type 0
  Opened s = Has laws path before bytes s × Stated laws path s

  pub read_and_heal-Triple : Triple Opened (read_and_heal fs serde path) Healed HasEither
  unfolding read_and_heal
  read_and_heal-Triple = record {
    at = λ s (h, stated). elim (Bool-cases (fs.exists path s)) [
      | inl e ↦ rw e (read_existing-Triple.at s h)
      | inr e ↦ rw e (absent s (sym h.here ∙ stated e) h)
    ];
  }
