-- ===== src/Frames/Shape.antt =====
-- Which bytes `parse_one_frame` of src/stores/file.rs accepts.
use yaoki.Prelude.{
  ℕ, suc, ◌+◌, ◌≤◌, ◌≡◌, ◌≢◌, sym, ◌∙◌, ap, [], ◌∷◌, ◌++◌, some, length, take, drop, take-append,
  drop_behind, All, ◌==◌, nat_eq, arith, Bool-cases, inl, inr, eq_of_beq, ne_of_beq,
}
use yaoki.Prelude.Options.{>>=-eq-some}
use yaoki.Text.{Bytes}
use yaoki.Seq.{u64_max}
use yaoki.Step.{u32_max}
use yaoki.Crc.{crc32}
use yaoki.Numbers.{from_str_radix}
use yaoki.Frames.{position}

abbrev pub Lacks : ℕ → Bytes → Type 0
Lacks c = All (λ b. b ≢ c)

-- A frame in front of other bytes.
pub record Frame (bytes payload rest : Bytes) : Type 0 where
  pub crc_field : Bytes
  pub len_field : Bytes
  pub whole : bytes ≡ crc_field ++ b':' ∷ (len_field ++ b':' ∷ (payload ++ b'\n' ∷ rest))
  pub no_colon : Lacks b':' crc_field
  pub no_colon' : Lacks b':' len_field
  pub crc_ok : from_str_radix 16 u32_max crc_field ≡ some (crc32 payload)
  pub len_ok : from_str_radix 10 u64_max len_field ≡ some (length payload)
  pub fits : length crc_field + 1 + length len_field + 1 + length payload ≤ u64_max

pub position-append :
    (c : ℕ) (xs ys : Bytes) → Lacks c xs → position c (xs ++ c ∷ ys) ≡ some (length xs)
unfolding position
position-append c [] ys h = ground arith
position-append c (x ∷ xs) ys (ne, h) = ground (arith, position-append c xs ys h)

pub position_split :
    (c : ℕ) (bytes : Bytes) {i : ℕ}
    → position c bytes ≡ some i
    → (xs : Bytes) × (ys : Bytes) × (bytes ≡ xs ++ c ∷ ys) × Lacks c xs × (length xs ≡ i)
unfolding position
position_split c [] h = cc
position_split c (b ∷ bytes) h = elim (Bool-cases (b == c)) [
  | inl t ↦ ([], bytes, ap (λ x. x ∷ bytes) (eq_of_beq b c t), tt, ground arith)
  | inr t ↦
      (let (i, e, s) = >>=-eq-some (position c bytes) (λ i. some (suc i)) (rw t at h) in
        let (xs, ys, whole, lacks, len) = position_split c bytes e in
        (b ∷ xs, ys, ap (λ t. b ∷ t) whole, (ne_of_beq b c t, lacks), ground (arith, len, s)))
]

-- The same by the code's terms.
pub position_cut :
    (c : ℕ) (bytes : Bytes) {i : ℕ}
    → position c bytes ≡ some i
    → (bytes ≡ take i bytes ++ c ∷ drop (suc i) bytes)
      × Lacks c (take i bytes)
      × (length (take i bytes) ≡ i)
position_cut c bytes {i} h =
    let (xs, ys, whole, lacks, len) = position_split c bytes h in
    let left : take i bytes ≡ xs =
      ap (λ n. take n bytes) (sym len) ∙ ap (take (length xs)) whole ∙ take-append xs (c ∷ ys) in
    let right : drop (suc i) bytes ≡ ys =
      ap (λ n. drop (suc n) bytes) (sym len)
      ∙ ap (drop (suc (length xs))) whole
      ∙ drop_behind xs c ys in
    (rw (left, right) whole, rw left lacks, ap length left ∙ len)

-- The number of bytes of a frame.
abbrev pub frame_size : {bytes payload rest : Bytes} → Frame bytes payload rest → ℕ
frame_size {payload = payload} f =
    length f.crc_field + 1 + length f.len_field + 1 + length payload + 1
