-- ===== src/Prelude/Results.antt =====
-- Rust's `Result<A, E>`, with `?` as bind and `map_err`, `ok_or` on `Option`.
use mathlib.Core.Path.{◌≡◌, refl}
use mathlib.Core.Logic.{◌⊎◌, inl, inr}
use mathlib.Core.Option.{Option, none, some}
use mathlib.Core.Bool.{Bool, true, false}

pub data Result (A E : Type 0) : Type 0 where
  ok : A → Result A E
  err : E → Result A E

-- `Result::and_then`
abbrev pub and_then : {A B E : Type 0} → (A → Result B E) → Result A E → Result B E
and_then next (err e) = err e
and_then next (ok a) = next a

abbrev pub ◌>>=◌ : {A B E : Type 0} → Result A E → (A → Result B E) → Result B E
first >>= next = and_then next first

abbrev pub map_err : {A E F : Type 0} → (E → F) → Result A E → Result A F
map_err f (ok a) = ok a
map_err f (err e) = err (f e)

abbrev pub ◌>>◌ : {A B E : Type 0} → Result A E → Result B E → Result B E
first >> second = and_then (λ _. second) first

infixl 5 ◌>>=◌ ◌>>◌
abbrev pub ok_or : {A E : Type 0} → E → Option A → Result A E
ok_or e none = err e
ok_or e (some a) = ok a

abbrev pub is_ok : {A E : Type 0} → Result A E → Bool
is_ok (ok a) = true
is_ok (err e) = false

pub Result-cases :
    {A E : Type 0} (r : Result A E) → ((a : A) × (r ≡ ok a)) ⊎ ((e : E) × (r ≡ err e))
Result-cases (ok a) = inl (a, refl)
Result-cases (err e) = inr (e, refl)

-- A bind that succeeds has a first part that succeeds.
pub >>=-eq-ok :
    {A B E : Type 0} (r : Result A E) (next : A → Result B E) {out : B}
    → (r >>= next) ≡ ok out
    → (value : A) × (r ≡ ok value) × (next value ≡ ok out)
>>=-eq-ok (err e) next succeeds = cc
>>=-eq-ok (ok value) next succeeds = (value, refl, succeeds)

pub bind_ok : {A E : Type 0} (r : Result A E) → (r >>= ok) ≡ r
bind_ok (ok a) = refl
bind_ok (err e) = refl
