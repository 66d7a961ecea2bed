-- ===== src/Numbers.antt =====
-- The numbers in the header of a frame of src/stores/file.rs: `{:08x}` and `{}` of `format!`, and
-- `u32::from_str_radix` and `usize::from_str`, which the standard library documents. `from_utf8` before
-- a parse refuses nothing that the parse would accept, since only bytes of ASCII are digits.
pub mod RoundTrip
use yaoki.Prelude.{
  ℕ, zero, suc, ◌+◌, ◌-◌, ◌*◌, ◌/◌, ◌%◌, List, [], ◌∷◌, Bool, ◌&&◌, Option, none, some, ltb, leb,
  ◌==◌, nat_eq, if◌then◌else◌,
}
use yaoki.Text.{Bytes}

-- The value of a digit, letters of either case included.
unfoldable pub digit_value : ℕ → Option ℕ
digit_value c =
    if leb b'0' c && leb c b'9'
    then some (c - b'0')
    else if leb b'a' c && leb c b'z'
    then some (c - b'a' + 10)
    else if leb b'A' c && leb c b'Z'
    then some (c - b'A' + 10)
    else none

-- `char::to_digit`
unfoldable pub to_digit : ℕ → ℕ → Option ℕ
unfolding digit_value
to_digit radix c = elim (digit_value c) [
  | none ↦ none
  | some d ↦ if ltb d radix then some d else none
]

-- The digits behind a number that is already read, with the check of overflow.
unfoldable pub parse_digits : ℕ → ℕ → Bytes → ℕ → Option ℕ
unfolding to_digit
parse_digits radix largest [] n = some n
parse_digits radix largest (c ∷ s) n = elim (to_digit radix c) [
  | none ↦ none
  | some d ↦
      (let rest = parse_digits radix largest s (n * radix + d) in
        if leb (n * radix + d) largest then rest else none)
]

-- A sign `+` in front of the digits is accepted.
abbrev pub strip_plus : Bytes → Bytes
strip_plus [] = []
strip_plus (c ∷ s) = if c == b'+' then s else c ∷ s

-- `from_str_radix` of an unsigned type with a largest value.
unfoldable pub from_str_radix : ℕ → ℕ → Bytes → Option ℕ
unfolding parse_digits
from_str_radix radix largest s = elim (strip_plus s) [
  | [] ↦ none
  | c ∷ rest ↦ parse_digits radix largest (c ∷ rest) 0
]

abbrev pub hex_digit : ℕ → ℕ
hex_digit d = if ltb d 10 then b'0' + d else b'a' + (d - 10)

-- The lowest hexadecimal digits of a number, in front of a text.
unfoldable pub hex_digits : ℕ → ℕ → Bytes → Bytes
hex_digits zero n out = out
hex_digits (suc width) n out = hex_digits width (n / 16) (hex_digit (n % 16) ∷ out)

-- The decimal digits of a number, in front of a text; the fuel is a bound on their number.
unfoldable pub decimal_digits : ℕ → ℕ → Bytes → Bytes
decimal_digits zero n out = out
decimal_digits (suc fuel) n out =
    let rest = decimal_digits fuel (n / 10) ((b'0' + n % 10) ∷ out) in
    if ltb n 10 then (b'0' + n) ∷ out else rest

-- A `usize` has at most twenty digits.
abbrev pub decimal : ℕ → Bytes
decimal n = decimal_digits 20 n []
