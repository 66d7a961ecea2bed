-- ===== src/Prelude/Slices.antt =====
-- Slices of a list: `take` and `drop` at the length of a part, and one after the other.
use Prim.Native.Nat.{ℕ, zero, suc, ◌+◌, ◌-◌, ◌≤◌}
use mathlib.Core.Path.{◌≡◌, refl, sym, ap, ◌∙◌}
use mathlib.Core.List.{List, [], ◌∷◌, ◌++◌}
use mathlib.Core.Option.{some}
use native.Mathlib.Omega.{arith}
use yaoki.Prelude.Lists.{length, get_elem?, take, drop}

-- Lists cut at the length of a part.
pub take-append : {A : Type 0} (xs ys : List A) → take (length xs) (xs ++ ys) ≡ xs
take-append [] ys = refl
take-append (x ∷ xs) ys = ap (λ t. x ∷ t) (take-append xs ys)

pub drop-append : {A : Type 0} (xs ys : List A) → drop (length xs) (xs ++ ys) ≡ ys
drop-append [] ys = refl
drop-append (x ∷ xs) ys = drop-append xs ys

pub drop_behind :
    {A : Type 0} (xs : List A) (c : A) (ys : List A) → drop (suc (length xs)) (xs ++ c ∷ ys) ≡ ys
drop_behind [] c ys = refl
drop_behind (x ∷ xs) c ys = drop_behind xs c ys

take-nil : {A : Type 0} (n : ℕ) → take {A = A} n [] ≡ []
take-nil zero = refl
take-nil (suc n) = refl

drop-nil : {A : Type 0} (n : ℕ) → drop {A = A} n [] ≡ []
drop-nil zero = refl
drop-nil (suc n) = refl

pub drop-drop : {A : Type 0} (a b : ℕ) (xs : List A) → drop (a + b) xs ≡ drop b (drop a xs)
drop-drop a b [] = drop-nil (a + b) ∙ sym (drop-nil b) ∙ ap (drop b) (sym (drop-nil a))
drop-drop zero b (x ∷ xs) = ap (λ n. drop n (x ∷ xs)) (let e : 0 + b ≡ b = omega arith in e)
drop-drop (suc a) b (x ∷ xs) =
    ap (λ n. drop n (x ∷ xs)) (let e : suc a + b ≡ suc (a + b) = omega arith in e)
    ∙ drop-drop a b xs

pub get_elem?-drop :
    {A : Type 0} (a k : ℕ) (xs : List A) → get_elem? xs (a + k) ≡ get_elem? (drop a xs) k
get_elem?-drop a k [] = ap (λ t. get_elem? t k) (sym (drop-nil a))
get_elem?-drop zero k (x ∷ xs) = ap (get_elem? (x ∷ xs)) (let e : 0 + k ≡ k = omega arith in e)
get_elem?-drop (suc a) k (x ∷ xs) =
    ap (get_elem? (x ∷ xs)) (let e : suc a + k ≡ suc (a + k) = omega arith in e)
    ∙ get_elem?-drop a k xs

-- A list cut at an element.
pub get_cut :
    {A : Type 0} (xs : List A) (i : ℕ) {x : A}
    → get_elem? xs i ≡ some x
    → (xs ≡ take i xs ++ x ∷ drop (suc i) xs) × (length (take i xs) ≡ i)
get_cut [] i h = cc
get_cut (y ∷ xs) zero h = (ap (λ t. t ∷ xs) (ground (arith, h)), refl)
get_cut (y ∷ xs) (suc i) h =
    let (whole, len) = get_cut xs i h in (ap (λ t. y ∷ t) whole, omega (arith, len))

pub take-drop : {A : Type 0} (n : ℕ) (xs : List A) → take n xs ++ drop n xs ≡ xs
take-drop zero xs = refl
take-drop (suc n) [] = refl
take-drop (suc n) (x ∷ xs) = ap (λ t. x ∷ t) (take-drop n xs)

pub take_add :
    {A : Type 0} (n m : ℕ) (xs : List A) → take (n + m) xs ≡ take n xs ++ take m (drop n xs)
take_add zero m xs = ap (λ k. take k xs) (let e : 0 + m ≡ m = omega arith in e)
take_add (suc n) m [] = take-nil (suc n + m) ∙ sym (take-nil m)
take_add (suc n) m (x ∷ xs) =
    ap (λ k. take k (x ∷ xs)) (let e : suc n + m ≡ suc (n + m) = omega arith in e)
    ∙ ap (λ t. x ∷ t) (take_add n m xs)

pub length-take : {A : Type 0} (n : ℕ) (xs : List A) → n ≤ length xs → length (take n xs) ≡ n
length-take zero xs h = refl
length-take (suc n) [] h = omega arith
length-take (suc n) (x ∷ xs) h = omega (arith, length-take n xs (omega arith))

pub length-drop : {A : Type 0} (n : ℕ) (xs : List A) → length (drop n xs) ≡ length xs - n
length-drop zero xs = omega arith
length-drop (suc n) [] = omega arith
length-drop (suc n) (x ∷ xs) = omega (arith, length-drop n xs)

pub drop-append_within :
    {A : Type 0} (k : ℕ) (xs ys : List A) → k ≤ length xs → drop k (xs ++ ys) ≡ drop k xs ++ ys
drop-append_within zero xs ys h = refl
drop-append_within (suc k) [] ys h = elim (let z : ⊥ = omega arith in z) [ ]
drop-append_within (suc k) (x ∷ xs) ys h = drop-append_within k xs ys (omega arith)

pub take-length : {A : Type 0} (n : ℕ) (xs : List A) → length xs ≤ n → take n xs ≡ xs
take-length n [] h = take-nil n
take-length zero (x ∷ xs) h = elim (let z : ⊥ = omega arith in z) [ ]
take-length (suc n) (x ∷ xs) h = ap (λ t. x ∷ t) (take-length n xs (omega arith))
