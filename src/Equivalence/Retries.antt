-- ===== src/Equivalence/Retries.antt =====
-- `OrderedRetries` of src/equivalence.rs. The hash map from operation keys is an association list; a
-- key is inserted once, since a second insertion ends the comparison.
use yaoki.Prelude.{
  ℕ, suc, ◌+◌, List, [], ◌∷◌, ◌++◌, Bool, false, ◌||◌, not, Option, none, some, length, ltb, ◌==◌,
  nat_eq, if◌then◌else◌,
}
use yaoki.Step.{IdempotencyKey}
use yaoki.Equivalence.{EffectRecord, EffectTrace, record_eq, key_beq}

-- The position and the record of each operation of the reference.
abbrev pub Operations : Type 0
Operations = List (IdempotencyKey × ℕ × EffectRecord)

unfoldable pub get : IdempotencyKey → Operations → Option (ℕ × EffectRecord)
get key [] = none
get key ((k, index, expected) ∷ operations) =
    if key_beq key k then some (index, expected) else get key operations

-- The loop over the reference, from an index on.
unfoldable pub index_operations : ℕ → EffectTrace → Operations → Option Operations
unfolding get
index_operations index [] operations = some operations
index_operations index (r ∷ rest) operations = elim (get r.operation operations) [
  | some old ↦ none
  | none ↦ index_operations (suc index) rest (operations ++ (r.operation, index, r) ∷ [])
]

-- The loop over the observed trace, with the position that is to appear next.
unfoldable pub match_retries : Operations → ℕ → EffectTrace → Option ℕ
unfolding get
match_retries operations next [] = some next
match_retries operations next (r ∷ rest) = elim (get r.operation operations) [
  | none ↦ none
  | some (index, expected) ↦
      if not (r == expected) || ltb next index
      then none
      else match_retries operations (if index == next then next + 1 else next) rest
]

-- `OrderedRetries::matches`
unfoldable pub ordered_retries : EffectTrace → EffectTrace → Bool
unfolding index_operations match_retries
ordered_retries observed reference = elim (index_operations 0 reference []) [
  | none ↦ false
  | some operations ↦ elim (match_retries operations 0 observed) [
    | none ↦ false
    | some next ↦ next == length reference
  ]
]
