-- ===== src/Frames.antt =====
-- The framing of src/stores/file.rs: `encode_frame`, `parse_one_frame` and `parse_frames`. Shape.antt says
-- which bytes are a frame, RoundTrip.antt that what is written is read, Torn.antt what a write that
-- was cut short leaves.
pub mod Shape
pub mod Read
pub mod RoundTrip
pub mod Loop
pub mod Torn
use yaoki.Prelude.{
  ℕ, zero, suc, ◌+◌, ◌-◌, List, [], ◌∷◌, ◌++◌, Bool, true, false, ◌||◌, not, Option, none, some,
  length, take, drop, get_elem?, leb, ◌==◌, nat_eq, if◌then◌else◌,
}
use yaoki.Prelude.Options.{◌>>=◌}
use yaoki.Text.{Bytes}
use yaoki.Seq.{u64_max}
use yaoki.Step.{u32_max}
use yaoki.Crc.{crc32}
use yaoki.Numbers.{from_str_radix, hex_digits, decimal}

-- `{crc:08x}:{len}:`, the payload and a line feed.
unfoldable pub encode_frame : Bytes → Bytes
encode_frame payload =
    hex_digits 8 (crc32 payload) []
    ++ b':' ∷ (decimal (length payload) ++ b':' ∷ (payload ++ b'\n' ∷ []))

-- The index of the first byte that is equal to a given one.
unfoldable pub position : ℕ → Bytes → Option ℕ
position c [] = none
position c (b ∷ bytes) = if b == c then some 0 else (position c bytes >>= λ i. some (suc i))

-- `checked_add` on `usize`.
abbrev pub checked_add : ℕ → ℕ → Option ℕ
checked_add a b = if leb (a + b) u64_max then some (a + b) else none

abbrev pub is_line_feed : Option ℕ → Bool
is_line_feed none = false
is_line_feed (some b) = b == b'\n'

-- The tests on what a complete header announces.
unfoldable pub check_payload : Bytes → ℕ → ℕ → ℕ → Option (Bytes × ℕ)
check_payload bytes expected_crc payload_start payload_end =
    let payload = take (payload_end - payload_start) (drop payload_start bytes) in
    if leb (length bytes) payload_end || not (is_line_feed (get_elem? bytes payload_end))
    then none
    else if not (crc32 payload == expected_crc)
    then none
    else some (payload, payload_end + 1)

unfoldable pub parse_one_frame : Bytes → Option (Bytes × ℕ)
unfolding position check_payload
parse_one_frame bytes = do
  crc_end ← position b':' bytes
  expected_crc ← from_str_radix 16 u32_max (take crc_end bytes)
  len_end ← position b':' (drop (suc crc_end) bytes)
  len ← from_str_radix 10 u64_max (take len_end (drop (suc crc_end) bytes))
  payload_end ← checked_add (crc_end + 1 + len_end + 1) len
  check_payload bytes expected_crc (crc_end + 1 + len_end + 1) payload_end

-- The loop over the frames from a position on. A frame has a byte at least, so the number of bytes is
-- fuel enough.
unfoldable pub parse_frames_from : ℕ → Bytes → ℕ → List Bytes × ℕ
unfolding parse_one_frame
parse_frames_from zero bytes position = ([], position)
parse_frames_from (suc fuel) bytes position = elim (parse_one_frame (drop position bytes)) [
  | none ↦ ([], position)
  | some (payload, frame_len) ↦
      (let (payloads, end) = parse_frames_from fuel bytes (position + frame_len) in
        (payload ∷ payloads, end))
]

unfoldable pub parse_frames : Bytes → List Bytes × ℕ
unfolding parse_frames_from
parse_frames bytes = parse_frames_from (length bytes + 1) bytes 0
