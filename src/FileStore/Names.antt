-- ===== src/FileStore/Names.antt =====
-- The names of the files of src/stores/file.rs.
use yaoki.Prelude.{
  ℕ, [], ◌∷◌, ◌++◌, ◌≡◌, ◌<◌, ◌≢◌, ◌/◌, ◌%◌, refl, sym, ◌∙◌, ap, All, length, take, take-append,
  length-append, arith,
}
use yaoki.Text.{Text, Bytes}
use yaoki.Execution.{ExecutionId}
use yaoki.Numbers.{hex_digit, hex_digits}
use yaoki.FileStore.{hex_encode, path_for, lock_path}

-- Texts that are equal with the same end are equal without it.
pub append_cancel : (xs ys end : Text) → xs ++ end ≡ ys ++ end → xs ≡ ys
append_cancel xs ys end h =
    let size : length xs ≡ length ys =
      omega (arith, ap length h, length-append xs end, length-append ys end) in
    sym (take-append xs end)
    ∙ ap (take (length xs)) h
    ∙ ap (λ n. take n (ys ++ end)) size
    ∙ take-append ys end

hex_digit-inj : (a b : ℕ) → a < 16 → b < 16 → hex_digit a ≡ hex_digit b → a ≡ b
hex_digit-inj a b ha hb h = ground (arith, h)

head_of : Text → ℕ
head_of [] = 0
head_of (c ∷ s) = c

tail_of : Text → Text
tail_of [] = []
tail_of (c ∷ s) = s

byte-inj :
    (a b : ℕ) (s t : Text)
    → a < 256
    → b < 256
    → hex_digits 2 a s ≡ hex_digits 2 b t
    → (a ≡ b) × (s ≡ t)
unfolding hex_digits head_of tail_of
byte-inj a b s t ha hb h =
    let high : a / 16 % 16 ≡ b / 16 % 16 =
      hex_digit-inj (a / 16 % 16) (b / 16 % 16) (omega arith) (omega arith) (ap head_of h) in
    let low : a % 16 ≡ b % 16 =
      hex_digit-inj (a % 16) (b % 16) (omega arith) (omega arith)
        (ap (λ u. head_of (tail_of u)) h) in
    (omega (arith, high, low), ap (λ u. tail_of (tail_of u)) h)

abbrev pub IsBytes : Bytes → Type 0
IsBytes = All (λ b. b < 256)

pub hex_encode-inj : (a b : Bytes) → IsBytes a → IsBytes b → hex_encode a ≡ hex_encode b → a ≡ b
unfolding hex_encode hex_digits
hex_encode-inj [] [] ha hb h = refl
hex_encode-inj [] (y ∷ b) ha hb h = cc
hex_encode-inj (x ∷ a) [] ha hb h = cc
hex_encode-inj (x ∷ a) (y ∷ b) (hx, ha) (hy, hb) h =
    let (e, rest) = byte-inj x y (hex_encode a) (hex_encode b) hx hy h in
    ap (λ t. t ∷ a) e ∙ ap (λ t. y ∷ t) (hex_encode-inj a b ha hb rest)

-- Different executions have different journal files and different lock files, for identities that are made of
-- bytes.
pub path_for-distinct :
    (a b : ExecutionId)
    → IsBytes a
    → IsBytes b
    → a ≢ b
    → (path_for a ≢ path_for b) × (lock_path a ≢ lock_path b)
path_for-distinct a b ha hb ne = (
  λ h. ne (hex_encode-inj a b ha hb (append_cancel _ _ _ h)),
  λ h. ne (hex_encode-inj a b ha hb (append_cancel _ _ _ h)),
)
