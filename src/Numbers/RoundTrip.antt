-- ===== src/Numbers/RoundTrip.antt =====
-- The numbers in a frame's header of src/stores/file.rs are read back as they are printed.
use yaoki.Prelude.{
  ℕ, zero, suc, ◌+◌, ◌*◌, ◌/◌, ◌%◌, ◌^◌, ◌<◌, ◌≤◌, ◌≡◌, ◌≢◌, refl, ◌∙◌, [], ◌∷◌, some, ltb, ◌==◌,
  nat_eq, arith, All, true, false, ap, length,
}
use native.Mathlib.Decide.{dec_lt}
use yaoki.Text.{Bytes}
use yaoki.Seq.{u64_max}
use yaoki.Step.{u32_max}
use yaoki.Numbers.{
  decimal, digit_value, to_digit, parse_digits, from_str_radix, hex_digit, hex_digits,
  decimal_digits,
}

-- What the prints are made of: no sign and no colon.
abbrev pub IsPlain : ℕ → Type 0
IsPlain c = (b'0' ≤ c) × (c ≢ b':')

hex_digit-IsPlain : (d : ℕ) → d < 16 → IsPlain (hex_digit d)
hex_digit-IsPlain d h = ground arith

to_digit-hex_digit : (d : ℕ) → d < 16 → to_digit 16 (hex_digit d) ≡ some d
unfolding to_digit digit_value
to_digit-hex_digit d h = ground arith

to_digit-decimal : (d : ℕ) → d < 10 → to_digit 10 (b'0' + d) ≡ some d
unfolding to_digit digit_value
to_digit-decimal d h = ground arith

-- A parse that takes one digit.
parse_digits-digit :
    (radix largest c d n : ℕ) (s : Bytes)
    → to_digit radix c ≡ some d
    → n * radix + d ≤ largest
    → parse_digits radix largest (c ∷ s) n ≡ parse_digits radix largest s (n * radix + d)
unfolding parse_digits
parse_digits-digit radix largest c d n s h fits = rw (h, parse_digits) (ground arith)

parse_digits-hex_digits :
    (width n largest : ℕ) (out : Bytes)
    → n < 16 ^ width
    → n ≤ largest
    → parse_digits 16 largest (hex_digits width n out) 0 ≡ parse_digits 16 largest out n
unfolding hex_digits
parse_digits-hex_digits zero n largest out h fits =
    ap (parse_digits 16 largest out) (let e : 0 ≡ n = omega arith in e)
parse_digits-hex_digits (suc width) n largest out h fits =
    parse_digits-hex_digits width (n / 16) largest _ (omega arith) (omega arith)
    ∙ parse_digits-digit 16 largest (hex_digit (n % 16)) (n % 16) (n / 16) out
        (to_digit-hex_digit (n % 16) (omega arith)) (omega arith)
    ∙ ap (parse_digits 16 largest out) (let e : n / 16 * 16 + n % 16 ≡ n = omega arith in e)

-- The last digit, and the digits before it.
decimal_last :
    (n largest : ℕ) (out : Bytes)
    → n ≤ largest
    → parse_digits 10 largest ((b'0' + n % 10) ∷ out) (n / 10) ≡ parse_digits 10 largest out n
decimal_last n largest out fits =
    parse_digits-digit 10 largest (b'0' + n % 10) (n % 10) (n / 10) out
      (to_digit-decimal (n % 10) (omega arith)) (omega arith)
    ∙ ap (parse_digits 10 largest out) (let e : n / 10 * 10 + n % 10 ≡ n = omega arith in e)

-- A number below ten is one digit, and another has its last digit behind those of its quotient.
decimal_one :
    (fuel n : ℕ) (out : Bytes) → n < 10 → decimal_digits (suc fuel) n out ≡ (b'0' + n) ∷ out
unfolding decimal_digits
decimal_one fuel n out lt = rw (let t : ltb n 10 ≡ true = ground arith in t) refl

decimal_more :
    (fuel n : ℕ) (out : Bytes)
    → 10 ≤ n
    → decimal_digits (suc fuel) n out ≡ decimal_digits fuel (n / 10) ((b'0' + n % 10) ∷ out)
unfolding decimal_digits
decimal_more fuel n out ge = rw (let t : ltb n 10 ≡ false = ground arith in t) refl

parse_decimal_one :
    (fuel n largest : ℕ) (out : Bytes)
    → n < 10
    → n ≤ largest
    → parse_digits 10 largest (decimal_digits (suc fuel) n out) 0 ≡ parse_digits 10 largest out n
parse_decimal_one fuel n largest out lt fits = rw (decimal_one fuel n out lt) (
    parse_digits-digit 10 largest (b'0' + n) n 0 out (to_digit-decimal n lt) (omega arith)
    ∙ ap (parse_digits 10 largest out) (let e : 0 * 10 + n ≡ n = omega arith in e))

parse_digits-decimal_digits :
    (fuel n largest : ℕ) (out : Bytes)
    → n < 10 ^ suc fuel
    → n ≤ largest
    → parse_digits 10 largest (decimal_digits (suc fuel) n out) 0 ≡ parse_digits 10 largest out n
parse_digits-decimal_digits zero n largest out h fits =
    parse_decimal_one zero n largest out (omega arith) fits
parse_digits-decimal_digits (suc fuel) n largest out h fits = elim (dec_lt n 10) [
  | yes lt ↦ parse_decimal_one (suc fuel) n largest out lt fits
  | no ge ↦ rw (decimal_more (suc fuel) n out (omega arith)) (
      parse_digits-decimal_digits fuel (n / 10) largest _ (omega arith) (omega arith)
      ∙ decimal_last n largest out fits)
]

-- The prints are plain, and have as many digits as the fuel allows.
pub hex_digits-All :
    (width n : ℕ) (out : Bytes) → All IsPlain out → All IsPlain (hex_digits width n out)
unfolding hex_digits
hex_digits-All zero n out h = h
hex_digits-All (suc width) n out h =
    hex_digits-All width (n / 16) _ (hex_digit-IsPlain (n % 16) (omega arith), h)

pub decimal_digits-All :
    (fuel n : ℕ) (out : Bytes) → All IsPlain out → All IsPlain (decimal_digits fuel n out)
unfolding decimal_digits
decimal_digits-All zero n out h = h
decimal_digits-All (suc fuel) n out h = elim (dec_lt n 10) [
  | yes lt ↦ rw (decimal_one fuel n out lt) (omega arith, h)
  | no ge ↦
      rw (decimal_more fuel n out (omega arith))
        (decimal_digits-All fuel (n / 10) _ (omega arith, h))
]

pub length-hex_digits :
    (width n : ℕ) (out : Bytes) → length (hex_digits width n out) ≡ width + length out
unfolding hex_digits
length-hex_digits zero n out = omega arith
length-hex_digits (suc width) n out =
    omega (arith, length-hex_digits width (n / 16) (hex_digit (n % 16) ∷ out))

pub length-decimal_digits :
    (fuel n : ℕ) (out : Bytes) → length (decimal_digits fuel n out) ≤ fuel + length out
unfolding decimal_digits
length-decimal_digits zero n out = omega arith
length-decimal_digits (suc fuel) n out =
    ground (arith, length-decimal_digits fuel (n / 10) ((b'0' + n % 10) ∷ out))

parse_digits_end : (radix largest n : ℕ) → parse_digits radix largest [] n ≡ some n
unfolding parse_digits
parse_digits_end radix largest n = refl

-- A decimal number has a digit.
decimal_digits-pos : (fuel n : ℕ) (out : Bytes) → length out ≤ length (decimal_digits fuel n out)
unfolding decimal_digits
decimal_digits-pos zero n out = omega arith
decimal_digits-pos (suc fuel) n out =
    ground (arith, decimal_digits-pos fuel (n / 10) ((b'0' + n % 10) ∷ out))

decimal_pos : (n : ℕ) → 0 < length (decimal n)
decimal_pos n = elim (dec_lt n 10) [
  | yes lt ↦ rw (decimal_one 19 n [] lt) (omega arith)
  | no ge ↦
      rw (decimal_more 19 n [] (omega arith))
        (omega (arith, decimal_digits-pos 19 (n / 10) ((b'0' + n % 10) ∷ [])))
]

-- A text of plain characters has no sign.
from_str_radix-plain :
    (radix largest : ℕ) (s : Bytes)
    → All IsPlain s
    → 0 < length s
    → from_str_radix radix largest s ≡ parse_digits radix largest s 0
unfolding from_str_radix
from_str_radix-plain radix largest [] h pos = absurd (omega arith)
from_str_radix-plain radix largest (c ∷ s) ((low, _), _) pos =
    rw (let t : (c == b'+') ≡ false = ground arith in t, from_str_radix) refl

pub from_str_radix-hex_digits :
    (n : ℕ) → n < 2 ^ 32 → from_str_radix 16 u32_max (hex_digits 8 n []) ≡ some n
from_str_radix-hex_digits n h =
    from_str_radix-plain 16 u32_max (hex_digits 8 n []) (hex_digits-All 8 n [] tt)
      (omega (arith, length-hex_digits 8 n []))
    ∙ parse_digits-hex_digits 8 n u32_max [] (omega arith) (omega arith)
    ∙ parse_digits_end 16 u32_max n

pub from_str_radix-decimal : (n : ℕ) → n ≤ u64_max → from_str_radix 10 u64_max (decimal n) ≡ some n
from_str_radix-decimal n h =
    from_str_radix-plain 10 u64_max (decimal n) (decimal_digits-All 20 n [] tt) (decimal_pos n)
    ∙ parse_digits-decimal_digits 19 n u64_max [] (omega arith) h
    ∙ parse_digits_end 10 u64_max n
