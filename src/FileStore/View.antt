-- ===== src/FileStore/View.antt =====
-- The journal that a file of src/stores/file.rs stands for: the events of its frames, up to the first payload that
-- does not decode.
use yaoki.Prelude.{
  ℕ, List, [], ◌∷◌, ◌++◌, ◌≡◌, ◌≤◌, refl, sym, ◌∙◌, ap, inl, inr, Result, ok, err, Result-cases,
  >>=-eq-ok, ltb, Bool, if◌then◌else◌, true, false, length, take,
}
use yaoki.Text.{Bytes}
use yaoki.Journal.{JournalEvent, Journal, JournalError}
use yaoki.Journal.WellFormed.{IsWellFormed}
use yaoki.Journal.Extends.{Extends}
use yaoki.Codec.{JournalEventRecord, to_record}
use yaoki.Codec.RoundTrip.{from_record-to_record}
use yaoki.Frames.{encode_frame, parse_frames}
use yaoki.Frames.RoundTrip.{isize_max}
use yaoki.Frames.Torn.{good, good-IsClean, parse_frames-part, clean-whole, parse_frames-heal}
use yaoki.FileStore.Payload.{Serde, encode, decode, decode_all}

-- What the store relies on in `serde_json`: a record is read back from its bytes, which are a vector.
pub record SerdeLaws (serde : Serde) : Type 0 where
  pub round_trip :
      (r : JournalEventRecord) (payload : Bytes)
      → serde.to_vec r ≡ ok payload
      → serde.from_slice payload ≡ ok r
  pub fits :
      (r : JournalEventRecord) (payload : Bytes)
      → serde.to_vec r ≡ ok payload
      → length payload ≤ isize_max

abbrev consed : Result JournalEvent JournalError → Journal → Journal
consed (err e) rest = []
consed (ok event) rest = event ∷ rest

module _ (serde : Serde) where
  unfoldable pub decoded : List Bytes → Journal
  decoded [] = []
  decoded (payload ∷ payloads) = consed (decode serde payload) (decoded payloads)

  abbrev pub journal_in : Bytes → Journal
  journal_in bytes = decoded (parse_frames bytes).0

  decode_all_inv :
      (payload : Bytes) (payloads : List Bytes) {events : Journal}
      → decode_all serde (payload ∷ payloads) ≡ ok events
      → (event : JournalEvent) × (rest : Journal) × (decode serde payload ≡ ok event)
        × (decode_all serde payloads ≡ ok rest)
        × (events ≡ event ∷ rest)
  unfolding decode_all
  decode_all_inv payload payloads h =
      let (event, e, h1) = >>=-eq-ok (decode serde payload) _ h in
      let (rest, e2, h2) = >>=-eq-ok (decode_all serde payloads) (λ rest. ok (event ∷ rest)) h1 in
      (event, rest, e, e2, cc)

  -- Where every payload decodes, nothing is left out.
  pub decoded_all :
      (payloads : List Bytes) {events : Journal}
      → decode_all serde payloads ≡ ok events
      → decoded payloads ≡ events
  unfolding decode_all decoded
  decoded_all [] h = cc
  decoded_all (payload ∷ payloads) h =
      let (event, rest, e, e2, whole) = decode_all_inv payload payloads h in
      rw e (ap (λ t. event ∷ t) (decoded_all payloads e2) ∙ sym whole)

  pub decoded-snoc :
      (payloads : List Bytes) (last : Bytes) {event : JournalEvent} {events : Journal}
      → decode serde last ≡ ok event
      → decode_all serde payloads ≡ ok events
      → decoded (payloads ++ last ∷ []) ≡ events ++ event ∷ []
  unfolding decode_all decoded
  decoded-snoc [] last {event} e h = rw e (ap (λ t. t ++ event ∷ []) (let n : [] ≡ _ = cc in n))
  decoded-snoc (payload ∷ payloads) last {event} e h =
      let (first, rest, e1, e2, whole) = decode_all_inv payload payloads h in
      rw e1 (
        ap (λ t. first ∷ t) (decoded-snoc payloads last e e2)
        ∙ ap (λ t. t ++ event ∷ []) (sym whole))

  pub decode_all-snoc :
      (payloads : List Bytes) (last : Bytes) {event : JournalEvent} {events : Journal}
      → decode serde last ≡ ok event
      → decode_all serde payloads ≡ ok events
      → decode_all serde (payloads ++ last ∷ []) ≡ ok (events ++ event ∷ [])
  unfolding decode_all
  decode_all-snoc [] last {event} e h =
      rw e (ap (λ t. ok (t ++ event ∷ [])) (let n : [] ≡ _ = cc in n))
  decode_all-snoc (payload ∷ payloads) last {event} e h =
      let (first, rest, e1, e2, whole) = decode_all_inv payload payloads h in
      rw (e1, decode_all-snoc payloads last e e2) (ap (λ t. ok (t ++ event ∷ [])) (sym whole))

  -- Further payloads can only add events.
  pub decoded-Extends :
      (payloads : List Bytes) (last : Bytes)
      → Extends (decoded payloads) (decoded (payloads ++ last ∷ []))
  unfolding decoded
  decoded-Extends [] last = (_, refl)
  decoded-Extends (payload ∷ payloads) last = elim (Result-cases (decode serde payload)) [
    | inl (event, e) ↦
        (let (more, h) = decoded-Extends payloads last in rw e (more, ap (λ t. event ∷ t) h))
    | inr (x, e) ↦ rw e ([], refl)
  ]

  -- What is written for a well-formed event is read as the event, and is no longer than a vector.
  pub decode-encode :
      (event : JournalEvent) (payload : Bytes)
      → SerdeLaws serde
      → encode serde event ≡ ok payload
      → (length payload ≤ isize_max) × (IsWellFormed event → decode serde payload ≡ ok event)
  unfolding encode decode
  decode-encode event payload laws h = elim (Result-cases (serde.to_vec (to_record event))) [
    | inl (bytes, e) ↦
        (let same : bytes ≡ payload = cc (h, e) in
          (
            laws.fits (to_record event) payload (e ∙ ap ok same),
            λ valid.
                rw (laws.round_trip (to_record event) payload (e ∙ ap ok same))
                  (from_record-to_record serde.messages event valid),
          ))
    | inr (x, e) ↦ cc (h, e)
  ]

  -- A file that was healed stands for the same journal.
  pub journal_in-good : (bytes : Bytes) → journal_in (good bytes) ≡ journal_in bytes
  journal_in-good bytes = ap (λ r. decoded r.0) (parse_frames-heal bytes)

  decoded_if :
      (b : Bool) (xs ys : List Bytes)
      → decoded (if b then xs else ys) ≡ (if b then decoded xs else decoded ys)
  decoded_if true xs ys = refl
  decoded_if false xs ys = refl

  -- The journal behind a write that may have been cut short.
  pub journal_in-part :
      (bytes payload : Bytes) (k : ℕ)
      → length payload ≤ isize_max
      → journal_in (good bytes ++ take k (encode_frame payload)) ≡ (
          if ltb k (length (encode_frame payload))
          then journal_in bytes
          else decoded ((parse_frames bytes).0 ++ payload ∷ []))
  journal_in-part bytes payload k fits =
      ap decoded
        (parse_frames-part (good bytes) (parse_frames bytes).0 payload k (good-IsClean bytes) fits)
      ∙ decoded_if (ltb k (length (encode_frame payload))) (parse_frames bytes).0
          ((parse_frames bytes).0 ++ payload ∷ [])

-- What is read once the whole of a frame is written behind the good ones.
pub parsed-whole :
    (bytes payload : Bytes)
    → length payload ≤ isize_max
    → (parse_frames (good bytes ++ encode_frame payload)).0 ≡ (parse_frames bytes).0 ++ payload ∷ []
parsed-whole bytes payload fits =
    ap (λ r. r.0)
      (clean-whole (good bytes) (parse_frames bytes).0 payload (good-IsClean bytes) fits)
