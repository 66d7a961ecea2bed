-- ===== src/Frames/RoundTrip.antt =====
-- What `parse_one_frame` of src/stores/file.rs makes of what `encode_frame` writes, whole and in part.
use yaoki.Prelude.{
  ℕ, ◌+◌, ◌-◌, ◌≤◌, ◌<◌, ◌^◌, ◌≡◌, sym, ◌∙◌, ap, [], ◌∷◌, ◌++◌, append_assoc, append-nil, Option,
  none, some, Option-cases, length, take, drop, take-drop, take-append, length-take, length-append,
  All, arith, inl, inr,
}
use yaoki.Text.{Bytes}
use yaoki.Crc.{crc32}
use yaoki.Crc.Bounds.{crc32-lt}
use yaoki.Numbers.{hex_digits, decimal}
use yaoki.Numbers.RoundTrip.{
  IsPlain, hex_digits-All, decimal_digits-All, length-hex_digits, length-decimal_digits,
  from_str_radix-hex_digits, from_str_radix-decimal,
}
use yaoki.Frames.{encode_frame, parse_one_frame}
use yaoki.Frames.Shape.{Lacks, Frame, frame_size}
use yaoki.Frames.Read.{parse_one_frame_sound, parse_one_frame_complete}

-- `isize::MAX`, which no length of a vector passes.
abbrev pub isize_max : ℕ
isize_max = 2 ^ 63 - 1

Lacks-plain : (s : Bytes) → All IsPlain s → Lacks b':' s
Lacks-plain [] h = tt
Lacks-plain (c ∷ s) ((_, ne), h) = (ne, Lacks-plain s h)

append_fields :
    (a b c : Bytes) (x y z : ℕ) (rest more : Bytes)
    → (a ++ x ∷ (b ++ y ∷ (c ++ z ∷ rest))) ++ more ≡ a ++ x ∷ (b ++ y ∷ (c ++ z ∷ (rest ++ more)))
append_fields a b c x y z rest more =
    append_assoc a (x ∷ (b ++ y ∷ (c ++ z ∷ rest))) more
    ∙ ap (λ t. a ++ x ∷ t)
        (append_assoc b (y ∷ (c ++ z ∷ rest)) more
          ∙ ap (λ t. b ++ y ∷ t) (append_assoc c (z ∷ rest) more))

encode_frame_shape :
    (payload rest : Bytes)
    → encode_frame payload ++ rest
      ≡ hex_digits 8 (crc32 payload) []
        ++ b':' ∷ (decimal (length payload) ++ b':' ∷ (payload ++ b'\n' ∷ rest))
unfolding encode_frame
encode_frame_shape payload rest =
    append_fields (hex_digits 8 (crc32 payload) []) (decimal (length payload)) payload b':' b':'
      b'\n' [] rest

pub encode_frame-Frame :
    (payload rest : Bytes)
    → length payload ≤ isize_max
    → Frame (encode_frame payload ++ rest) payload rest
encode_frame-Frame payload rest h = record {
  crc_field = hex_digits 8 (crc32 payload) [];
  len_field = decimal (length payload);
  whole = encode_frame_shape payload rest;
  no_colon = Lacks-plain _ (hex_digits-All 8 (crc32 payload) [] tt);
  no_colon' = Lacks-plain _ (decimal_digits-All 20 (length payload) [] tt);
  crc_ok = from_str_radix-hex_digits (crc32 payload) (crc32-lt payload);
  len_ok = from_str_radix-decimal (length payload) (omega arith);
  fits = omega (
    arith,
    length-hex_digits 8 (crc32 payload) [],
    length-decimal_digits 20 (length payload) [],
    h,
  );
}

-- A frame ends where what follows begins.
pub frame_size-length :
    {bytes payload rest : Bytes} (f : Frame bytes payload rest)
    → length bytes ≡ frame_size f + length rest
frame_size-length {bytes} {payload} {rest} f = omega (
  arith,
  ap length f.whole,
  length-append f.crc_field (b':' ∷ (f.len_field ++ b':' ∷ (payload ++ b'\n' ∷ rest))),
  length-append f.len_field (b':' ∷ (payload ++ b'\n' ∷ rest)),
  length-append payload (b'\n' ∷ rest),
)

pub Frame-append :
    {bytes payload rest : Bytes} (more : Bytes) (f : Frame bytes payload rest)
    → Frame (bytes ++ more) payload (rest ++ more)
Frame-append {bytes} {payload} {rest} more f = record {
  crc_field = f.crc_field;
  len_field = f.len_field;
  whole =
      ap (λ t. t ++ more) f.whole
      ∙ append_fields f.crc_field f.len_field payload b':' b':' b'\n' rest more;
  no_colon = f.no_colon;
  no_colon' = f.no_colon';
  crc_ok = f.crc_ok;
  len_ok = f.len_ok;
  fits = f.fits;
}

-- Bytes that follow a frame do not change what is read.
pub parse_one_frame-append :
    (bytes more : Bytes) {payload : Bytes} {n : ℕ}
    → parse_one_frame bytes ≡ some (payload, n)
    → parse_one_frame (bytes ++ more) ≡ some (payload, n)
unfolding Frame-append
parse_one_frame-append bytes more {payload} h =
    let (rest, f, size) = parse_one_frame_sound bytes h in
    parse_one_frame_complete (Frame-append more f) ∙ ap (λ k. some (payload, k)) (sym size)

-- A frame lies within the bytes and has one byte at least.
pub parse_one_frame_within :
    (bytes : Bytes) {payload : Bytes} {n : ℕ}
    → parse_one_frame bytes ≡ some (payload, n)
    → (0 < n) × (n ≤ length bytes)
parse_one_frame_within bytes h =
    let (rest, f, size) = parse_one_frame_sound bytes h in
    (omega (arith, size), omega (arith, size, frame_size-length f))

-- The bytes of a frame alone are a frame.
Frame-front :
    {bytes payload rest : Bytes} (f : Frame bytes payload rest)
    → Frame (take (frame_size f) bytes) payload []
Frame-front {bytes} {payload} {rest} f = record {
  crc_field = f.crc_field;
  len_field = f.len_field;
  whole =
      rw (f.whole ∙ sym (append_fields f.crc_field f.len_field payload b':' b':' b'\n' [] rest)) (
        rw
          (let e : frame_size f
                ≡ length (f.crc_field ++ b':' ∷ (f.len_field ++ b':' ∷ (payload ++ b'\n' ∷ []))) =
              size in
            e)
          (take-append (f.crc_field ++ b':' ∷ (f.len_field ++ b':' ∷ (payload ++ b'\n' ∷ [])))
            rest));
  no_colon = f.no_colon;
  no_colon' = f.no_colon';
  crc_ok = f.crc_ok;
  len_ok = f.len_ok;
  fits = f.fits;
}
  where
    size :
        frame_size f
        ≡ length (f.crc_field ++ b':' ∷ (f.len_field ++ b':' ∷ (payload ++ b'\n' ∷ [])))
    size = omega (
      arith,
      length-append f.crc_field (b':' ∷ (f.len_field ++ b':' ∷ (payload ++ b'\n' ∷ []))),
      length-append f.len_field (b':' ∷ (payload ++ b'\n' ∷ [])),
      length-append payload (b'\n' ∷ []),
    )

-- A frame is read from its own bytes alone.
pub parse_one_frame-take :
    (bytes : Bytes) {payload : Bytes} {n : ℕ}
    → parse_one_frame bytes ≡ some (payload, n)
    → parse_one_frame (take n bytes) ≡ some (payload, n)
unfolding Frame-front
parse_one_frame-take bytes {payload} {n} h =
    let (rest, f, size) = parse_one_frame_sound bytes h in
    rw size (parse_one_frame_complete (Frame-front f))

pub length-encode_frame :
    (payload : Bytes) (h : length payload ≤ isize_max)
    → frame_size (encode_frame-Frame payload [] h) ≡ length (encode_frame payload)
length-encode_frame payload h = omega (
  arith,
  frame_size-length (encode_frame-Frame payload [] h),
  ap length (append-nil (encode_frame payload)),
)

-- What `encode_frame` writes is read back by `parse_one_frame`, whatever bytes follow, with the number of
-- bytes written, for every payload that is no longer than a vector can be.
pub parse_one_frame-encode_frame :
    (payload rest : Bytes)
    → length payload ≤ isize_max
    → parse_one_frame (encode_frame payload ++ rest) ≡ some (payload, length (encode_frame payload))
unfolding encode_frame-Frame
parse_one_frame-encode_frame payload rest h =
    parse_one_frame_complete (encode_frame-Frame payload rest h)
    ∙ ap (λ n. some (payload, n)) (length-encode_frame payload h)

-- A write that was cut short leaves no frame: no proper part of what `encode_frame` writes is read by
-- `parse_one_frame`.
pub parse_one_frame-torn :
    (payload : Bytes) (k : ℕ)
    → length payload ≤ isize_max
    → k < length (encode_frame payload)
    → parse_one_frame (take k (encode_frame payload)) ≡ none
parse_one_frame-torn payload k h short =
    elim (Option-cases (parse_one_frame (take k (encode_frame payload)))) [
      | inl e ↦ e
      | inr ((p, n), e) ↦
          (let whole =
              ap parse_one_frame
                (append-nil (encode_frame payload) ∙ sym (take-drop k (encode_frame payload)))
              ∙ parse_one_frame-append (take k (encode_frame payload))
                  (drop k (encode_frame payload)) e in
            let size : length (encode_frame payload) ≡ n =
              ap (λ o. get_size o) (sym (parse_one_frame-encode_frame payload [] h) ∙ whole) in
            let (_, within) = parse_one_frame_within (take k (encode_frame payload)) e in
            let absurd_size : ⊥ =
              omega
                (arith, size, within, short, length-take k (encode_frame payload) (omega arith)) in
            elim absurd_size [ ])
    ]
  where
    get_size : Option (Bytes × ℕ) → ℕ
    get_size none = 0
    get_size (some (p, n)) = n
