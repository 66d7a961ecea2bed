-- ===== src/Equivalence/FirstAppearances.antt =====
-- What `OrderedRetries` of src/equivalence.rs is about: references that have each key once, and the first appearances of
-- records in a trace; and what the table of a reference finds.
use yaoki.Prelude.{
  ℕ, suc, ◌+◌, [], ◌∷◌, ◌++◌, Bool, true, false, ◌||◌, Option, none, some, ◌≡◌, ◌≢◌, refl, sym, ◌∙◌,
  ap, ◌↔◌, inl, inr, length, All, arith, ◌==◌, list_eq, nat_eq, eq_of_beq, Bool-cases,
  if◌then◌else◌, list_beq_iff,
}
use yaoki.Step.{IdempotencyKey}
use yaoki.Equivalence.{EffectRecord, EffectTrace, record_eq, key_beq}
use yaoki.Equivalence.Retries.{Operations, get}

abbrev pub LacksKey : IdempotencyKey → EffectTrace → Type 0
LacksKey key = All (λ r. r.operation ≢ key)

-- Every key occurs once.
abbrev pub UniqueKeys : EffectTrace → Type 0
UniqueKeys [] = Unit
UniqueKeys (r ∷ rest) = LacksKey r.operation rest × UniqueKeys rest

abbrev pub elem : EffectRecord → EffectTrace → Bool
elem r [] = false
elem r (x ∷ seen) = (r == x) || elem r seen

-- The records that are not among those seen, each where it first appears.
unfoldable pub first_appearances : EffectTrace → EffectTrace → EffectTrace
first_appearances seen [] = []
first_appearances seen (r ∷ rest) =
    if elem r seen then first_appearances seen rest else r ∷ first_appearances (seen ++ r ∷ []) rest

pub key_beq_iff : (a b : IdempotencyKey) → (key_beq a b ≡ true) ↔ (a ≡ b)
key_beq_iff a b = ground (arith, list_beq_iff a.execution b.execution)

-- The table of a list of records, from an index on.
unfoldable pub table : ℕ → EffectTrace → Operations
table index [] = []
table index (r ∷ rest) = (r.operation, index, r) ∷ table (suc index) rest

-- A lookup fails exactly where no record has the key.
pub get-none :
    (key : IdempotencyKey) (index : ℕ) (trace : EffectTrace)
    → (get key (table index trace) ≡ none) ↔ LacksKey key trace
unfolding get table
get-none key index [] = (λ h. tt, λ h. refl)
get-none key index (r ∷ rest) = elim (Bool-cases (key_beq key r.operation)) [
  | inl e ↦
      (λ h. cc (rw e at h), λ (ne, lacks). absurd (ne (sym ((key_beq_iff key r.operation).0 e))))
  | inr e ↦ rw e (
    λ h. (
      λ same. cc (e, (key_beq_iff key r.operation).1 (sym same)),
      (get-none key (suc index) rest).0 h,
    ),
    λ (ne, lacks). (get-none key (suc index) rest).1 lacks,
  )
]

-- A lookup finds the first record with the key.
pub get-append :
    (index : ℕ) (before : EffectTrace) (r : EffectRecord) (after : EffectTrace)
    → LacksKey r.operation before
    → get r.operation (table index (before ++ r ∷ after)) ≡ some (index + length before, r)
unfolding get table
get-append index [] r after lacks =
    rw ((key_beq_iff r.operation r.operation).1 refl) (ap (λ n. some (n, r)) (omega arith))
get-append index (x ∷ before) r after (ne, lacks) =
    elim (Bool-cases (key_beq r.operation x.operation)) [
      | inl e ↦ absurd (ne (sym ((key_beq_iff r.operation x.operation).0 e)))
      | inr e ↦
          rw e (get-append (suc index) before r after lacks ∙ ap (λ n. some (n, r)) (omega arith))
    ]

-- Where a lookup succeeds, the record stands at the index.
pub get_found :
    (key : IdempotencyKey) (index : ℕ) (trace : EffectTrace) (i : ℕ) (e : EffectRecord)
    → get key (table index trace) ≡ some (i, e)
    → (before : EffectTrace) × (after : EffectTrace) × (trace ≡ before ++ e ∷ after)
      × (i ≡ index + length before)
unfolding get table
get_found key index [] i e h = cc
get_found key index (r ∷ rest) i e h = elim (Bool-cases (key_beq key r.operation)) [
  | inl t ↦
      (let found : ◌≡◌ {A = Option (ℕ × EffectRecord)} (some (index, r)) (some (i, e)) =
          rw t at h in
        ([], rest, cc, omega (arith, (let n : index ≡ i = cc in n))))
  | inr t ↦
      (let (before, after, whole, place) = get_found key (suc index) rest i e (rw t at h) in
        (r ∷ before, after, ap (λ t. r ∷ t) whole, omega (arith, place)))
]

LacksKey-append :
    (key : IdempotencyKey) (xs : EffectTrace) (r : EffectRecord) (ys : EffectTrace)
    → LacksKey key (xs ++ r ∷ ys)
    → r.operation ≢ key
LacksKey-append key [] r ys (ne, lacks) = ne
LacksKey-append key (x ∷ xs) r ys (ne, lacks) = LacksKey-append key xs r ys lacks

-- In a reference with unique keys no record in front of another has its key.
pub UniqueKeys-front :
    (before : EffectTrace) (r : EffectRecord) (after : EffectTrace)
    → UniqueKeys (before ++ r ∷ after)
    → LacksKey r.operation before
UniqueKeys-front [] r after unique = tt
UniqueKeys-front (x ∷ before) r after (lacks, unique) = (
  λ same. LacksKey-append x.operation before r after lacks (sym same),
  UniqueKeys-front before r after unique,
)

LacksKey-snoc :
    (key : IdempotencyKey) (xs : EffectTrace) (r : EffectRecord)
    → LacksKey key xs
    → r.operation ≢ key
    → LacksKey key (xs ++ r ∷ [])
LacksKey-snoc key [] r lacks ne = (ne, tt)
LacksKey-snoc key (x ∷ xs) r (nx, lacks) ne = (nx, LacksKey-snoc key xs r lacks ne)

pub UniqueKeys-snoc :
    (before : EffectTrace) (r : EffectRecord)
    → UniqueKeys before
    → LacksKey r.operation before
    → UniqueKeys (before ++ r ∷ [])
UniqueKeys-snoc [] r unique lacks = (tt, tt)
UniqueKeys-snoc (x ∷ before) r (first, unique) (ne, lacks) = (
  LacksKey-snoc x.operation before r first (λ same. ne (sym same)),
  UniqueKeys-snoc before r unique lacks,
)

pub elem-split :
    (r : EffectRecord) (seen : EffectTrace)
    → elem r seen ≡ true
    → (before : EffectTrace) × (after : EffectTrace) × (seen ≡ before ++ r ∷ after)
elem-split r [] h = cc
elem-split r (x ∷ seen) h = elim (Bool-cases (r == x)) [
  | inl e ↦ ([], seen, ap (λ t. t ∷ seen) (sym (eq_of_beq r x e)))
  | inr e ↦
      (let (before, after, whole) = elem-split r seen (rw e at h) in
        (x ∷ before, after, ap (λ t. x ∷ t) whole))
]

pub elem-LacksKey :
    (r : EffectRecord) (seen : EffectTrace) → LacksKey r.operation seen → elem r seen ≡ false
elem-LacksKey r [] lacks = refl
elem-LacksKey r (x ∷ seen) (ne, lacks) = elim (Bool-cases (r == x)) [
  | inl e ↦ absurd (ne (ap (λ r. r.operation) (sym (eq_of_beq r x e))))
  | inr e ↦ rw e (elem-LacksKey r seen lacks)
]
