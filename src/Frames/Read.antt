-- ===== src/Frames/Read.antt =====
-- What `parse_one_frame` of src/stores/file.rs reads.
use yaoki.Prelude.{
  ℕ, suc, ◌+◌, ◌-◌, ◌≤◌, ◌<◌, ◌≡◌, refl, sym, ◌∙◌, ap, ◌∷◌, ◌++◌, Option, none, some, length, take,
  drop, get_elem?, get_elem?-append, take-append, drop_behind, drop-drop, get_elem?-drop, get_cut,
  leb, nat_eq, arith, length-append, true, false, eq_of_beq, beq_refl,
}
use yaoki.Prelude.Options.{>>=-eq-some}
use yaoki.Text.{Bytes}
use yaoki.Seq.{u64_max}
use yaoki.Step.{u32_max}
use yaoki.Crc.{crc32}
use yaoki.Numbers.{from_str_radix}
use yaoki.Frames.{position, checked_add, is_line_feed, check_payload, parse_one_frame}
use yaoki.Frames.Shape.{Frame, frame_size, position-append, position_cut}

is_line_feed-some : (o : Option ℕ) → is_line_feed o ≡ true → o ≡ some b'\n'
is_line_feed-some none h = cc
is_line_feed-some (some b) h = ap some (eq_of_beq b b'\n' h)

-- What the tests on the payload establish.
check_payload_sound :
    (bytes : Bytes) (crc start end : ℕ) {payload : Bytes} {n : ℕ}
    → check_payload bytes crc start end ≡ some (payload, n)
    → (get_elem? bytes end ≡ some b'\n')
      × (payload ≡ take (end - start) (drop start bytes))
      × (crc ≡ crc32 payload)
      × (n ≡ end + 1)
unfolding check_payload
check_payload_sound bytes crc start end h = ground (
  arith,
  is_line_feed-some (get_elem? bytes end),
  eq_of_beq (crc32 (take (end - start) (drop start bytes))) crc,
)

checked_add_sum : (a b : ℕ) {c : ℕ} → checked_add a b ≡ some c → (c ≡ a + b) × (a + b ≤ u64_max)
checked_add_sum a b h = ground arith

-- The frame that the tests have found.
frame_found :
    (bytes payload : Bytes) (crc_end len_end len end : ℕ)
    → position b':' bytes ≡ some crc_end
    → from_str_radix 16 u32_max (take crc_end bytes) ≡ some (crc32 payload)
    → position b':' (drop (suc crc_end) bytes) ≡ some len_end
    → from_str_radix 10 u64_max (take len_end (drop (suc crc_end) bytes)) ≡ some len
    → end ≡ crc_end + 1 + len_end + 1 + len
    → end ≤ u64_max
    → get_elem? bytes end ≡ some b'\n'
    → payload ≡ take (end - (crc_end + 1 + len_end + 1)) (drop (crc_end + 1 + len_end + 1) bytes)
    → (rest : Bytes) × (f : Frame bytes payload rest) × (end + 1 ≡ frame_size f)
frame_found bytes payload crc_end len_end len end e1 e2 e3 e4 e5 fits line slice =
    let (whole, lacks, at) = position_cut b':' bytes e1 in
    let (whole', lacks', at') = position_cut b':' (drop (suc crc_end) bytes) e3 in
    let behind : drop (crc_end + 1 + len_end + 1) bytes ≡ body =
      ap (λ n. drop n bytes)
        (let e : crc_end + 1 + len_end + 1 ≡ suc crc_end + suc len_end = omega arith in e)
      ∙ drop-drop (suc crc_end) (suc len_end) bytes in
    let here : get_elem? body len ≡ some b'\n' =
      ap (λ t. get_elem? t len) (sym behind)
      ∙ sym (get_elem?-drop (crc_end + 1 + len_end + 1) len bytes)
      ∙ ap (get_elem? bytes) (sym e5)
      ∙ line in
    let (cut, size) = get_cut body len here in
    let is : payload ≡ take len body =
      slice
      ∙ ap (λ n. take n (drop (crc_end + 1 + len_end + 1) bytes))
          (let e : end - (crc_end + 1 + len_end + 1) ≡ len = omega arith in e)
      ∙ ap (take len) behind in
    let length_is : length payload ≡ len = ap length is ∙ size in
    (
      drop (suc len) body,
      record {
        crc_field = take crc_end bytes;
        len_field = take len_end (drop (suc crc_end) bytes);
        whole =
            whole
            ∙ ap (λ t. take crc_end bytes ++ b':' ∷ t)
                (whole'
                  ∙ ap (λ t. take len_end (drop (suc crc_end) bytes) ++ b':' ∷ t)
                      (cut ∙ ap (λ t. t ++ b'\n' ∷ drop (suc len) body) (sym is)));
        no_colon = lacks;
        no_colon' = lacks';
        crc_ok = e2;
        len_ok = e4 ∙ ap some (sym length_is);
        fits = omega (arith, at, at', length_is, e5, fits);
      },
      omega (arith, at, at', length_is, e5),
    )
  where
    body : Bytes
    body = drop (suc len_end) (drop (suc crc_end) bytes)

-- What is read is a frame, and its size is reported.
pub parse_one_frame_sound :
    (bytes : Bytes) {payload : Bytes} {n : ℕ}
    → parse_one_frame bytes ≡ some (payload, n)
    → (rest : Bytes) × (f : Frame bytes payload rest) × (n ≡ frame_size f)
unfolding parse_one_frame
parse_one_frame_sound bytes {payload} {n} h =
    let (crc_end, e1, h1) = >>=-eq-some (position b':' bytes) _ h in
    let (crc, e2, h2) = >>=-eq-some (from_str_radix 16 u32_max (take crc_end bytes)) _ h1 in
    let (len_end, e3, h3) = >>=-eq-some (position b':' (drop (suc crc_end) bytes)) _ h2 in
    let (len, e4, h4) =
      >>=-eq-some (from_str_radix 10 u64_max (take len_end (drop (suc crc_end) bytes))) _ h3 in
    let (end, e5, h5) = >>=-eq-some (checked_add (crc_end + 1 + len_end + 1) len) _ h4 in
    let (line, slice, sum, size) =
      check_payload_sound bytes crc (crc_end + 1 + len_end + 1) end h5 in
    let (adds, fits) = checked_add_sum (crc_end + 1 + len_end + 1) len e5 in
    let (rest, f, all) =
      frame_found bytes payload crc_end len_end len end e1 (e2 ∙ ap some sum) e3 e4 adds
        (omega (arith, adds, fits)) line slice in
    (rest, f, size ∙ all)

-- The tests on the payload of a frame succeed.
check_payload_complete :
    (bytes payload rest : Bytes) (start : ℕ)
    → drop start bytes ≡ payload ++ b'\n' ∷ rest
    → start + length payload < length bytes
    → check_payload bytes (crc32 payload) start (start + length payload)
      ≡ some (payload, start + length payload + 1)
unfolding check_payload
check_payload_complete bytes payload rest start body long =
    let here : get_elem? bytes (start + length payload) ≡ some b'\n' =
      get_elem?-drop start (length payload) bytes
      ∙ ap (λ t. get_elem? t (length payload)) body
      ∙ get_elem?-append payload (b'\n' ∷ rest) in
    let is : take (start + length payload - start) (drop start bytes) ≡ payload =
      ap (λ n. take n (drop start bytes))
        (let e : start + length payload - start ≡ length payload = omega arith in e)
      ∙ ap (take (length payload)) body
      ∙ take-append payload (b'\n' ∷ rest) in
    let short : leb (length bytes) (start + length payload) ≡ false = ground (arith, long) in
    rw (is, here, short) (rw (beq_refl (crc32 payload)) refl)

-- A frame is read, and its size is reported.
pub parse_one_frame_complete :
    {bytes payload rest : Bytes} (f : Frame bytes payload rest)
    → parse_one_frame bytes ≡ some (payload, frame_size f)
unfolding parse_one_frame
parse_one_frame_complete {bytes} {payload} {rest} f = ap parse_one_frame f.whole ∙ read
  where
    body : Bytes
    body = payload ++ b'\n' ∷ rest

    fields : Bytes
    fields = f.len_field ++ b':' ∷ body

    all : Bytes
    all = f.crc_field ++ b':' ∷ fields

    body_start : ℕ
    body_start = length f.crc_field + 1 + length f.len_field + 1

    behind : drop body_start all ≡ body
    behind =
        ap (λ n. drop n all)
          (let e : body_start ≡ suc (length f.crc_field) + suc (length f.len_field) = omega arith in
            e)
        ∙ drop-drop (suc (length f.crc_field)) (suc (length f.len_field)) all
        ∙ ap (drop (suc (length f.len_field))) (drop_behind f.crc_field b':' fields)
        ∙ drop_behind f.len_field b':' body

    long : body_start + length payload < length all
    long = omega (
      arith,
      length-append f.crc_field (b':' ∷ fields),
      length-append f.len_field (b':' ∷ body),
      length-append payload (b'\n' ∷ rest),
    )

    read : parse_one_frame all ≡ some (payload, body_start + length payload + 1)
    read =
        rw (position-append b':' f.crc_field fields f.no_colon, parse_one_frame)
          (rw (take-append f.crc_field (b':' ∷ fields), f.crc_ok)
            (rw (drop_behind f.crc_field b':' fields) (
              rw (position-append b':' f.len_field body f.no_colon') (
                rw (take-append f.len_field (b':' ∷ body), f.len_ok)
                  (rw
                    (let t : leb (body_start + length payload) u64_max ≡ true =
                        ground (arith, f.fits) in
                      t)
                    (check_payload_complete all payload rest body_start behind long))))))
