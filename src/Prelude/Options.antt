-- ===== src/Prelude/Options.antt =====
-- `?` on an `Option`.
use mathlib.Core.Path.{◌≡◌, refl}
use mathlib.Core.Option.{Option, none, some}

infixl 5 ◌>>=◌
abbrev pub ◌>>=◌ : {A B : Type 0} → Option A → (A → Option B) → Option B
none >>= next = none
some value >>= next = next value

-- A chain that succeeds has a first part that succeeds.
pub >>=-eq-some :
    {A B : Type 0} (o : Option A) (next : A → Option B) {out : B}
    → (o >>= next) ≡ some out
    → (value : A) × (o ≡ some value) × (next value ≡ some out)
>>=-eq-some none next h = cc
>>=-eq-some (some value) next h = (value, refl, h)
