-- ===== src/Frames/Loop.antt =====
-- The loop of `parse_frames` of src/stores/file.rs: the frames from the front on, and the place at which
-- the next one is refused.
use yaoki.Prelude.{
  ℕ, zero, suc, ◌+◌, ◌≤◌, ◌<◌, ◌≡◌, refl, sym, ◌∙◌, ap, List, [], ◌∷◌, ◌++◌, Option, none, some,
  Option-cases, length, take, drop, drop-drop, drop-append, drop-append_within, take_add,
  length-take, length-drop, arith, inl, inr,
}
use yaoki.Text.{Bytes}
use yaoki.Frames.{position, parse_one_frame, parse_frames_from, parse_frames}
use yaoki.Frames.RoundTrip.{parse_one_frame-append, parse_one_frame-take, parse_one_frame_within}

-- The frames at the front of the bytes, up to the first place at which none is read.
abbrev pub Parsed : Bytes → List Bytes → ℕ → Type 0
Parsed bytes [] n = (n ≡ 0) × (parse_one_frame bytes ≡ none)
Parsed bytes (payload ∷ payloads) n =
    (k : ℕ) × (m : ℕ) × (parse_one_frame bytes ≡ some (payload, k))
    × Parsed (drop k bytes) payloads m
    × (n ≡ k + m)

pub Parsed-within :
    (bytes : Bytes) (payloads : List Bytes) (n : ℕ) → Parsed bytes payloads n → n ≤ length bytes
Parsed-within bytes [] n (e, h) = omega (arith, e)
Parsed-within bytes (payload ∷ payloads) n (k, m, e, h, s) = omega (
  arith,
  s,
  Parsed-within (drop k bytes) payloads m h,
  length-drop k bytes,
  parse_one_frame_within bytes e,
)

-- The loop ends where no frame is read.
pub Parsed-stop :
    (bytes : Bytes) (payloads : List Bytes) (n : ℕ)
    → Parsed bytes payloads n
    → parse_one_frame (drop n bytes) ≡ none
Parsed-stop bytes [] n (e, h) = rw e h
Parsed-stop bytes (payload ∷ payloads) n (k, m, e, h, s) =
    rw (s, drop-drop k m bytes) (Parsed-stop (drop k bytes) payloads m h)

some_frame :
    (p q : Bytes) (n m : ℕ)
    → ◌≡◌ {A = Option (Bytes × ℕ)} (some (p, n)) (some (q, m))
    → (p ≡ q) × (n ≡ m)
some_frame p q n m h = (cc, cc)

pub Parsed_unique :
    (bytes : Bytes) (ps qs : List Bytes) (n m : ℕ)
    → Parsed bytes ps n
    → Parsed bytes qs m
    → ◌≡◌ {A = List Bytes × ℕ} (ps, n) (qs, m)
Parsed_unique bytes [] [] n m (e, h) (e', h') = ap (λ k. ([], k)) (e ∙ sym e')
Parsed_unique bytes [] (q ∷ qs) n m (e, h) (k, i, e', _, _) = cc
Parsed_unique bytes (p ∷ ps) [] n m (k, i, e', _, _) (e, h) = cc
Parsed_unique bytes (p ∷ ps) (q ∷ qs) n m (k, i, e, h, s) (k', i', e', h', s') =
    let (same, len) = some_frame p q k k' (sym e ∙ e') in
    let rest = Parsed_unique (drop k bytes) ps qs i i' h (rw len h') in cc

pub parse_one_frame-nil : parse_one_frame [] ≡ none
unfolding parse_one_frame position
parse_one_frame-nil = refl

pub Parsed-append :
    (bytes more : Bytes) (ps qs : List Bytes) (n m : ℕ)
    → n ≡ length bytes
    → Parsed bytes ps n
    → Parsed more qs m
    → Parsed (bytes ++ more) (ps ++ qs) (n + m)
Parsed-append [] more [] qs n m len (e, h) h' = rw (e, let z : 0 + m ≡ m = omega arith in z) h'
Parsed-append (b ∷ bytes) more [] qs n m len (e, h) h' =
    elim (let z : ⊥ = omega (arith, len, e) in z) [ ]
Parsed-append bytes more (p ∷ ps) qs n m len (k, i, e, h, s) h' =
    let (_, within) = parse_one_frame_within bytes e in
    (
      k,
      i + m,
      parse_one_frame-append bytes more e,
      rw (drop-append_within k bytes more within) (
          Parsed-append (drop k bytes) more ps qs i m (omega (arith, s, len, length-drop k bytes)) h
            h'),
      omega (arith, s),
    )

-- The frames that were read are all that is left when the bytes behind them are cut off.
pub Parsed-take :
    (bytes : Bytes) (ps : List Bytes) (n : ℕ) → Parsed bytes ps n → Parsed (take n bytes) ps n
Parsed-take bytes [] n (e, h) = rw e (refl, parse_one_frame-nil)
Parsed-take bytes (p ∷ ps) n (k, m, e, h, s) =
    let (_, within) = parse_one_frame_within bytes e in
    let both : take n bytes ≡ take k bytes ++ take m (drop k bytes) =
      ap (λ n. take n bytes) s ∙ take_add k m bytes in
    let behind : drop k (take k bytes ++ take m (drop k bytes)) ≡ take m (drop k bytes) =
      ap (λ n. drop n (take k bytes ++ take m (drop k bytes))) (sym (length-take k bytes within))
      ∙ drop-append (take k bytes) (take m (drop k bytes)) in
    (
      k,
      m,
      ap parse_one_frame both
          ∙ parse_one_frame-append (take k bytes) (take m (drop k bytes))
              (parse_one_frame-take bytes e),
      rw (both, behind) (Parsed-take (drop k bytes) ps m h),
      s,
    )

parse_frames_from-Parsed :
    (fuel : ℕ) (bytes : Bytes) (position : ℕ)
    → position ≤ length bytes
    → length bytes < position + fuel
    → (n : ℕ) × Parsed (drop position bytes) (parse_frames_from fuel bytes position).0 n
      × ((parse_frames_from fuel bytes position).1 ≡ position + n)
unfolding parse_frames_from
parse_frames_from-Parsed zero bytes position h h' = elim (let z : ⊥ = omega arith in z) [ ]
parse_frames_from-Parsed (suc fuel) bytes position h h' =
    elim (Option-cases (parse_one_frame (drop position bytes))) [
      | inl e ↦ rw (e, parse_frames_from) (0, (refl, e), omega arith)
      | inr ((p, k), e) ↦
          (let (some_bytes, within) = parse_one_frame_within (drop position bytes) e in
            let (m, h, end) =
              parse_frames_from-Parsed fuel bytes (position + k)
                (omega (arith, within, length-drop position bytes)) (omega (arith, some_bytes)) in
            rw (e, parse_frames_from)
              (k + m, (k, m, e, rw (sym (drop-drop position k bytes)) h, refl), omega (arith, end)))
    ]

pub parse_frames-Parsed :
    (bytes : Bytes) → Parsed bytes (parse_frames bytes).0 (parse_frames bytes).1
unfolding parse_frames
parse_frames-Parsed bytes =
    let (n, h, e) =
      parse_frames_from-Parsed (length bytes + 1) bytes 0 (omega arith) (omega arith) in
    rw (e, let z : 0 + n ≡ n = omega arith in z) h

pub parse_frames_eq :
    (bytes : Bytes) (payloads : List Bytes) (n : ℕ)
    → Parsed bytes payloads n
    → parse_frames bytes ≡ (payloads, n)
parse_frames_eq bytes payloads n h =
    Parsed_unique bytes (parse_frames bytes).0 payloads (parse_frames bytes).1 n
      (parse_frames-Parsed bytes) h
