-- ===== src/Equivalence.antt =====
-- src/equivalence.rs: comparisons of an observed trace of step effects with a reference. Duplicate.antt
-- has the specification of the second, Ordered.antt that of the third.
pub mod Duplicate
pub mod Retries
pub mod FirstAppearances
pub mod Indexed
pub mod Ordered
use yaoki.Prelude.{
  ℕ, zero, suc, ◌+◌, ◌-◌, List, [], ◌∷◌, ◌++◌, Bool, true, false, ◌&&◌, ◌||◌, Option, none, some,
  length, ltb, ◌==◌, nat_eq, list_eq, Eq, ◌≡◌, ◌↔◌, refl, eq_of_beq, beq_refl, list_beq_iff, arith,
  if◌then◌else◌,
}
use yaoki.Step.{StepName, IdempotencyKey}
use yaoki.Journal.{EventPayload}

-- One observed step effect, identified by its stable operation key.
pub record EffectRecord : Type 0 where
  pub operation : IdempotencyKey
  pub step : StepName
  pub payload : EventPayload

-- The derived `PartialEq` of `IdempotencyKey` and of `EffectRecord`.
abbrev pub key_beq : IdempotencyKey → IdempotencyKey → Bool
key_beq a b = a.execution == b.execution && a.seq == b.seq

abbrev pub record_beq : EffectRecord → EffectRecord → Bool
record_beq a b = key_beq a.operation b.operation && a.step == b.step && a.payload == b.payload

pub record_beq_iff : (a b : EffectRecord) → (record_beq a b ≡ true) ↔ (a ≡ b)
record_beq_iff a b = ground (
  arith,
  list_beq_iff a.operation.execution b.operation.execution,
  list_beq_iff a.step b.step,
  list_beq_iff a.payload b.payload,
)

instance abbrev pub record_eq : Eq EffectRecord
record_eq = record { equal = record_beq; equal_iff = record_beq_iff }

-- Ordered observations, repeated attempts included.
abbrev pub EffectTrace : Type 0
EffectTrace = List EffectRecord

-- `EffectTrace::record`
abbrev pub observe : EffectTrace → IdempotencyKey → StepName → EventPayload → EffectTrace
observe trace operation step payload =
    trace ++ record { operation = operation; step = step; payload = payload } ∷ []

-- `ExactTrace::matches`
abbrev pub exact : EffectTrace → EffectTrace → Bool
exact observed reference = observed == reference

-- `checked_sub`
abbrev pub checked_sub : ℕ → ℕ → Option ℕ
checked_sub a b = if ltb a b then none else some (a - b)

abbrev pub is_one : Option ℕ → Bool
is_one none = false
is_one (some n) = n == 1

-- `Vec::insert`, at an index within the list.
unfoldable pub insert : ℕ → EffectRecord → EffectTrace → EffectTrace
insert zero r trace = r ∷ trace
insert (suc i) r [] = r ∷ []
insert (suc i) r (x ∷ trace) = x ∷ insert i r trace

-- `any` over the records from an index on.
unfoldable pub any_duplicated : EffectTrace → EffectTrace → ℕ → List EffectRecord → Bool
unfolding insert
any_duplicated observed reference index [] = false
any_duplicated observed reference index (r ∷ rest) =
    insert index r reference == observed || any_duplicated observed reference (suc index) rest

-- `SingleAdjacentDuplicate::matches`
unfoldable pub single_adjacent_duplicate : EffectTrace → EffectTrace → Bool
unfolding any_duplicated
single_adjacent_duplicate observed reference =
    if observed == reference
    then true
    else if is_one (checked_sub (length observed) (length reference))
    then any_duplicated observed reference 0 reference
    else false
