-- ===== src/FileStore/Journals.antt =====
-- What `append` and `load` of src/stores/file.rs do to the journal that a file stands for.
use yaoki.Prelude.{
  ℕ, [], ◌∷◌, ◌++◌, ◌≡◌, ◌⊎◌, inl, inr, refl, sym, ◌∙◌, ap, subst, Bool, false, Result, ok, err,
  length, take, ltb, Bool-cases, arith, take-length,
}
use yaoki.Text.{Bytes}
use yaoki.Execution.{ExecutionId}
use yaoki.Seq.{EventOffset}
use yaoki.Journal.{JournalEvent, Journal, JournalError}
use yaoki.Journal.WellFormed.{IsWellFormed}
use yaoki.Journal.Extends.{Extends, Extends-same}
use yaoki.Journal.Store.{Appended}
use yaoki.Frames.{encode_frame, parse_frames}
use yaoki.Frames.Torn.{good}
use yaoki.FileSystem.{FileSystem, FileLaws, Stated}
use yaoki.FileStore.Payload.{Serde}
use yaoki.FileStore.View.{
  SerdeLaws, journal_in, decoded_all, decoded-snoc, decoded-Extends, decode-encode, journal_in-good,
  journal_in-part,
}
use yaoki.FileStore.Triple.{Ends}
use yaoki.FileStore.Steps.{Has, HasPart}
use yaoki.FileStore.Reads.{HasEither, Healed, read_and_heal-Triple}
use yaoki.FileStore.Writes.{Ready, Grown, PartlyGrown, append-Triple}
use yaoki.FileStore.{path_for, lock_path, append, load}

module _ {S : Type 0} {fs : FileSystem S} (laws : FileLaws fs) (serde : Serde)
    (serde_laws : SerdeLaws serde) where
  abbrev pub journal_of : S → ExecutionId → Journal
  journal_of s id = journal_in serde (laws.contents s (path_for id))

  abbrev pub owned : S → ExecutionId → Bool
  owned s id = laws.locked s (lock_path id)

  pub starts :
      (id : ExecutionId) (s : S) → Has laws (path_for id) s (laws.contents s (path_for id)) s
  starts id s = record { here = refl; others = λ other ne. refl; locks = λ other. refl }

  -- The journal of a file whose bytes are known.
  pub journal_at :
      (id : ExecutionId) (before s : S) (bytes : Bytes)
      → Has laws (path_for id) before bytes s
      → journal_of s id ≡ journal_in serde bytes
  journal_at id before s bytes h = ap (journal_in serde) h.here

  pub either_same :
      (id : ExecutionId) (before s : S)
      → HasEither laws serde (path_for id) before (laws.contents before (path_for id)) s
      → journal_of s id ≡ journal_of before id
  either_same id before s (inl h) = journal_at id before s _ h
  either_same id before s (inr h) =
      journal_at id before s _ h ∙ journal_in-good serde (laws.contents before (path_for id))

  -- What a success of `append` leaves.
  grown_journal :
      (id : ExecutionId) (event : JournalEvent) (before s : S) (offset : EventOffset)
      → IsWellFormed event
      → Grown laws serde id event before (laws.contents before (path_for id)) offset s
      → Appended (journal_of before id) event (ok offset) (journal_of s id)
  grown_journal id event before s offset valid (events, payload, (all, e), count, h) =
      let (fits, reads) = decode-encode serde event payload serde_laws e in
      let was : journal_of before id ≡ events = decoded_all serde (parse_frames bytes).0 all in
      let cut : take (length (encode_frame payload)) (encode_frame payload) ≡ encode_frame payload =
        take-length (length (encode_frame payload)) (encode_frame payload) (omega arith) in
      let now : journal_in serde (good bytes ++ encode_frame payload) ≡ events ++ event ∷ [] =
        ap (λ b. journal_in serde (good bytes ++ b)) (sym cut)
        ∙ journal_in-part serde bytes payload (length (encode_frame payload)) fits
        ∙ rw
            (let t : ltb (length (encode_frame payload)) (length (encode_frame payload)) ≡ false =
                ground arith in
              t)
            (decoded-snoc serde (parse_frames bytes).0 payload (reads valid) all) in
      (
        count ∙ ap length (sym was),
        journal_at id before s _ h ∙ now ∙ ap (λ j. j ++ event ∷ []) (sym was),
      )
    where
      bytes : Bytes
      bytes = laws.contents before (path_for id)

  -- What a write that may have been cut short leaves.
  part_journal :
      (id : ExecutionId) (event : JournalEvent) (before s : S) (events : Journal) (payload : Bytes)
      → IsWellFormed event
      → Ready laws serde id event before (laws.contents before (path_for id)) events payload
      → HasPart laws
          (path_for id)
          before
          (good (laws.contents before (path_for id)))
          (encode_frame payload)
          s
      → (journal_of s id ≡ journal_of before id)
        ⊎ (journal_of s id ≡ journal_of before id ++ event ∷ [])
  part_journal id event before s events payload valid (all, e) (k, le, h) =
      let (fits, reads) = decode-encode serde event payload serde_laws e in
      let was : journal_of before id ≡ events = decoded_all serde (parse_frames bytes).0 all in
      let part = journal_at id before s _ h ∙ journal_in-part serde bytes payload k fits in
      elim (Bool-cases (ltb k (length (encode_frame payload)))) [
        | inl t ↦ inl (rw t at part)
        | inr t ↦ inr (
            (rw t at part)
            ∙ decoded-snoc serde (parse_frames bytes).0 payload (reads valid) all
            ∙ ap (λ j. j ++ event ∷ []) (sym was))
      ]
    where
      bytes : Bytes
      bytes = laws.contents before (path_for id)

  pub appended :
      (id : ExecutionId) (event : JournalEvent) (before s : S) (r : Result EventOffset JournalError)
      → IsWellFormed event
      → Ends
          (Grown laws serde id event before (laws.contents before (path_for id)))
          (PartlyGrown laws serde id event before (laws.contents before (path_for id)))
          r
          s
      → Appended (journal_of before id) event r (journal_of s id)
  appended id event before s (ok offset) valid h = grown_journal id event before s offset valid h
  appended id event before s (err x) valid (inl h) = inl (either_same id before s h)
  appended id event before s (err x) valid (inr (events, payload, r, h)) =
      part_journal id event before s events payload valid r h

  -- The same of any event: the journal at most grows.
  part_Extends :
      (id : ExecutionId) (event : JournalEvent) (before s : S) (events : Journal) (payload : Bytes)
      (k : ℕ)
      → Ready laws serde id event before (laws.contents before (path_for id)) events payload
      → Has laws
          (path_for id)
          before
          (good (laws.contents before (path_for id)) ++ take k (encode_frame payload))
          s
      → Extends (journal_of before id) (journal_of s id)
  part_Extends id event before s events payload k (all, e) h =
      let (fits, _) = decode-encode serde event payload serde_laws e in
      let part = journal_at id before s _ h ∙ journal_in-part serde bytes payload k fits in
      elim (Bool-cases (ltb k (length (encode_frame payload)))) [
        | inl t ↦ Extends-same (rw t at part)
        | inr t ↦
            (let (more, e) = decoded-Extends serde (parse_frames bytes).0 payload in
              (more, (rw t at part) ∙ e))
      ]
    where
      bytes : Bytes
      bytes = laws.contents before (path_for id)

  pub grows :
      (id : ExecutionId) (event : JournalEvent) (before s : S) (r : Result EventOffset JournalError)
      → Ends
          (Grown laws serde id event before (laws.contents before (path_for id)))
          (PartlyGrown laws serde id event before (laws.contents before (path_for id)))
          r
          s
      → Extends (journal_of before id) (journal_of s id)
  grows id event before s (ok offset) (events, payload, r, count, h) =
      part_Extends id event before s events payload (length (encode_frame payload)) r (
        subst
          (λ b. Has laws (path_for id) before (good (laws.contents before (path_for id)) ++ b) s)
          (sym (take-length (length (encode_frame payload)) (encode_frame payload) (omega arith)))
          h)
  grows id event before s (err x) (inl h) = Extends-same (either_same id before s h)
  grows id event before s (err x) (inr (events, payload, r, (k, le, h))) =
      part_Extends id event before s events payload k r h

  -- Whatever an append does, it does to the file of its execution alone.
  touched :
      (id : ExecutionId) (event : JournalEvent) (before s : S) (bytes : Bytes)
      (r : Result EventOffset JournalError)
      → Ends
          (Grown laws serde id event before bytes)
          (PartlyGrown laws serde id event before bytes)
          r
          s
      → (after : Bytes) × Has laws (path_for id) before after s
  touched id event before s bytes (ok offset) (events, payload, r, count, h) = (_, h)
  touched id event before s bytes (err x) (inl (inl h)) = (_, h)
  touched id event before s bytes (err x) (inl (inr h)) = (_, h)
  touched id event before s bytes (err x) (inr (events, payload, r, (k, le, h))) = (_, h)

  pub append-Ends :
      (id : ExecutionId) (event : JournalEvent) (s : S)
      → Stated laws (path_for id) s
      → Ends
          (Grown laws serde id event s (laws.contents s (path_for id)))
          (PartlyGrown laws serde id event s (laws.contents s (path_for id)))
          (append fs serde id event s).0
          (append fs serde id event s).1
  append-Ends id event s stated =
      (append-Triple laws serde id event s (laws.contents s (path_for id))).at s
        (starts id s, stated)

  pub append_touched :
      (id : ExecutionId) (event : JournalEvent) (s : S)
      → Stated laws (path_for id) s
      → (after : Bytes) × Has laws (path_for id) s after (append fs serde id event s).1
  append_touched id event s stated =
      touched id event s (append fs serde id event s).1 (laws.contents s (path_for id))
        (append fs serde id event s).0 (append-Ends id event s stated)

  -- A load of the journal: what it returns, and what it leaves.
  pub load-Ends :
      (id : ExecutionId) (s : S)
      → Stated laws (path_for id) s
      → Ends
          (Healed laws serde (path_for id) s (laws.contents s (path_for id)))
          (HasEither laws serde (path_for id) s (laws.contents s (path_for id)))
          (load fs serde id s).0
          (load fs serde id s).1
  unfolding load
  load-Ends id s stated =
      (read_and_heal-Triple laws serde (path_for id) s (laws.contents s (path_for id))).at s
        (starts id s, stated)

  loaded :
      (id : ExecutionId) (before s : S) (r : Result Journal JournalError)
      → Ends
          (Healed laws serde (path_for id) before (laws.contents before (path_for id)))
          (HasEither laws serde (path_for id) before (laws.contents before (path_for id)))
          r
          s
      → ((journal : Journal) → r ≡ ok journal → journal ≡ journal_of before id)
        × HasEither laws serde (path_for id) before (laws.contents before (path_for id)) s
  loaded id before s (ok events) (all, h) = (
    λ journal e. (let same : events ≡ journal = cc in sym same) ∙ sym (decoded_all serde _ all),
    inr h,
  )
  loaded id before s (err x) h = (λ journal e. cc, h)

  pub load_loaded :
      (id : ExecutionId) (s : S)
      → Stated laws (path_for id) s
      → ((journal : Journal) → (load fs serde id s).0 ≡ ok journal → journal ≡ journal_of s id)
        × HasEither laws serde
            (path_for id)
            s
            (laws.contents s (path_for id))
            (load fs serde id s).1
  load_loaded id s stated =
      loaded id s (load fs serde id s).1 (load fs serde id s).0 (load-Ends id s stated)

  pub either_touched :
      (id : ExecutionId) (before s : S) (bytes : Bytes)
      → HasEither laws serde (path_for id) before bytes s
      → (after : Bytes) × Has laws (path_for id) before after s
  either_touched id before s bytes (inl h) = (_, h)
  either_touched id before s bytes (inr h) = (_, h)
