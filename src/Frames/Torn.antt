-- ===== src/Frames/Torn.antt =====
-- What `parse_frames` of src/stores/file.rs reads from the files that `FileJournal::append` leaves: whole frames,
-- and the part of a frame that a crash left behind them.
use yaoki.Prelude.{
  ℕ, ◌+◌, ◌≤◌, ◌<◌, ◌≡◌, sym, ◌∙◌, ap, List, [], ◌∷◌, ◌++◌, append-nil, none, some, length, take,
  drop, drop-append, length-append, length-take, take-length, All, arith, refl, subst, ltb,
  if◌then◌else◌, true, false,
}
use native.Mathlib.Decide.{dec_lt}
use yaoki.Text.{Bytes}
use yaoki.Frames.{encode_frame, parse_one_frame, parse_frames}
use yaoki.Frames.Shape.{Frame, frame_size}
use yaoki.Frames.Read.{parse_one_frame_sound, parse_one_frame_complete}
use yaoki.Frames.RoundTrip.{isize_max, parse_one_frame-encode_frame, parse_one_frame-torn}
use yaoki.Frames.Loop.{
  Parsed, Parsed-within, Parsed-stop, Parsed-append, Parsed-take, parse_one_frame-nil,
  parse_frames-Parsed, parse_frames_eq,
}

-- The frames of the payloads, one after the other.
unfoldable pub encode_frames : List Bytes → Bytes
encode_frames [] = []
encode_frames (payload ∷ payloads) = encode_frame payload ++ encode_frames payloads

-- No payload is longer than a vector can be.
abbrev pub Fit : List Bytes → Type 0
Fit = All (λ payload. length payload ≤ isize_max)

pub encode_frames-Parsed :
    (payloads : List Bytes)
    → Fit payloads
    → Parsed (encode_frames payloads) payloads (length (encode_frames payloads))
unfolding encode_frames
encode_frames-Parsed [] h = (refl, parse_one_frame-nil)
encode_frames-Parsed (payload ∷ payloads) (fits, h) = (
  length (encode_frame payload),
  length (encode_frames payloads),
  parse_one_frame-encode_frame payload (encode_frames payloads) fits,
  rw (drop-append (encode_frame payload) (encode_frames payloads))
      (encode_frames-Parsed payloads h),
  length-append (encode_frame payload) (encode_frames payloads),
)

-- Frames behind which nothing else stands.
abbrev pub IsClean : Bytes → List Bytes → Type 0
IsClean bytes payloads = Parsed bytes payloads (length bytes)

-- The frames at the front of a file.
abbrev pub good : Bytes → Bytes
good bytes = take (parse_frames bytes).1 bytes

pub good-IsClean : (bytes : Bytes) → IsClean (good bytes) (parse_frames bytes).0
good-IsClean bytes =
    subst (Parsed (good bytes) (parse_frames bytes).0)
      (sym (
        length-take (parse_frames bytes).1 bytes
          (Parsed-within bytes (parse_frames bytes).0 _ (parse_frames-Parsed bytes))))
      (Parsed-take bytes (parse_frames bytes).0 (parse_frames bytes).1 (parse_frames-Parsed bytes))

-- A proper part of a frame behind whole ones is not read.
clean-part :
    (clean : Bytes) (payloads : List Bytes) (last : Bytes) (k : ℕ)
    → IsClean clean payloads
    → length last ≤ isize_max
    → k < length (encode_frame last)
    → parse_frames (clean ++ take k (encode_frame last)) ≡ (payloads, length clean)
clean-part clean payloads last k h fits short = parse_frames_eq _ payloads (length clean) (
    rw (append-nil payloads, let e : length clean + 0 ≡ length clean = omega arith in e) at
      (Parsed-append clean (take k (encode_frame last)) payloads [] _ 0 refl h
        (refl, parse_one_frame-torn last k fits short)))

one-IsClean : (last : Bytes) → length last ≤ isize_max → IsClean (encode_frame last) (last ∷ [])
one-IsClean last fits = rw (append-nil (encode_frame last)) at (
    let h : IsClean (encode_frame last ++ []) (last ∷ []) = (
      length (encode_frame last),
      0,
      parse_one_frame-encode_frame last [] fits,
      (refl, rw (drop-append (encode_frame last) []) parse_one_frame-nil),
      length-append (encode_frame last) [],
    ) in
    h)

-- A whole frame behind whole ones is read.
pub clean-whole :
    (clean : Bytes) (payloads : List Bytes) (last : Bytes)
    → IsClean clean payloads
    → length last ≤ isize_max
    → parse_frames (clean ++ encode_frame last)
      ≡ (payloads ++ last ∷ [], length clean + length (encode_frame last))
clean-whole clean payloads last h fits = parse_frames_eq _ (payloads ++ last ∷ []) _ (
    Parsed-append clean (encode_frame last) payloads (last ∷ []) _ _ refl h (one-IsClean last fits))

-- What is read after a write that may have been cut short: the payload if all of its frame was written.
pub parse_frames-part :
    (clean : Bytes) (payloads : List Bytes) (last : Bytes) (k : ℕ)
    → IsClean clean payloads
    → length last ≤ isize_max
    → ((parse_frames (clean ++ take k (encode_frame last))).0
        ≡ (if ltb k (length (encode_frame last)) then payloads else payloads ++ last ∷ []))
parse_frames-part clean payloads last k h fits = elim (dec_lt k (length (encode_frame last))) [
  | yes short ↦
      rw (let t : ltb k (length (encode_frame last)) ≡ true = ground (arith, short) in t)
        (ap (λ r. r.0) (clean-part clean payloads last k h fits short))
  | no long ↦
      rw
        (
          let t : ltb k (length (encode_frame last)) ≡ false = ground (arith, long) in t,
          take-length k (encode_frame last) (omega arith),
        )
        (ap (λ r. r.0) (clean-whole clean payloads last h fits))
]

-- `parse_one_frame` reads a payload and a size exactly when the bytes begin with a frame of that payload and
-- that size: two fields without a colon, of which the first is a hexadecimal `u32`, the CRC-32 of the payload,
-- and the second a decimal `usize`, its length, then the payload and a line feed.
pub parse_one_frame-Frame :
    (bytes payload : Bytes) (n : ℕ)
    → (parse_one_frame bytes ≡ some (payload, n)
        → (rest : Bytes) × (f : Frame bytes payload rest) × (n ≡ frame_size f))
      × ((rest : Bytes) (f : Frame bytes payload rest)
          → n ≡ frame_size f
          → parse_one_frame bytes ≡ some (payload, n))
parse_one_frame-Frame bytes payload n = (
  parse_one_frame_sound bytes,
  λ rest f size. parse_one_frame_complete f ∙ ap (λ k. some (payload, k)) (sym size),
)

-- `parse_frames` stops only where it has to, for any bytes: its fuel is enough, the byte count that it
-- returns is within the bytes, and no frame is read at that place.
pub parse_frames-stop :
    (bytes : Bytes)
    → ((parse_frames bytes).1 ≤ length bytes)
      × (parse_one_frame (drop (parse_frames bytes).1 bytes) ≡ none)
parse_frames-stop bytes = (
  Parsed-within bytes (parse_frames bytes).0 _ (parse_frames-Parsed bytes),
  Parsed-stop bytes (parse_frames bytes).0 _ (parse_frames-Parsed bytes),
)

-- A file that is truncated to the byte count of `parse_frames` parses to the same payloads and the same byte
-- count, whatever the bytes are: healing a file loses no payload that was read and is done once.
pub parse_frames-heal :
    (bytes : Bytes) → parse_frames (take (parse_frames bytes).1 bytes) ≡ parse_frames bytes
parse_frames-heal bytes =
    parse_frames_eq (take (parse_frames bytes).1 bytes) (parse_frames bytes).0
      (parse_frames bytes).1
      (Parsed-take bytes (parse_frames bytes).0 (parse_frames bytes).1 (parse_frames-Parsed bytes))

-- A crash in the middle of a write: behind the frames of any payloads, a proper part of the frame of one more
-- payload is not read, and `parse_frames` returns the payloads before it and the length of their
-- frames, for payloads that are no longer than a vector can be.
pub parse_frames-torn :
    (payloads : List Bytes) (last : Bytes) (k : ℕ)
    → Fit payloads
    → length last ≤ isize_max
    → k < length (encode_frame last)
    → parse_frames (encode_frames payloads ++ take k (encode_frame last))
      ≡ (payloads, length (encode_frames payloads))
parse_frames-torn payloads last k h fits short =
    clean-part (encode_frames payloads) payloads last k (encode_frames-Parsed payloads h) fits short
