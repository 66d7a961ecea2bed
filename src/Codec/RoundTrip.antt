-- ===== src/Codec/RoundTrip.antt =====
-- Events and the file store's record of them, in src/stores/file.rs.
use yaoki.Prelude.{ℕ, ◌≡◌, refl, Result, ok, err, ◌>>=◌, arith, Bool-cases, inl, inr, nat_eq, subst}
use yaoki.Text.{Text, trim, is_empty}
use yaoki.Text.Trim.{trim-trim}
use yaoki.Execution.{WorkflowName, WorkflowVersion, workflow_name, workflow_version}
use yaoki.Step.{StepName, Attempt, step_name, attempt_number}
use yaoki.Journal.{JournalEvent, JournalError}
use yaoki.Journal.WellFormed.{IsWellFormed}
use yaoki.Codec.{JournalEventRecord, Messages, malformed, to_record, from_record}

-- What a constructor of names accepts, it accepts again unchanged.
workflow_name_again :
    (raw : Text) {name : WorkflowName} → workflow_name raw ≡ ok name → workflow_name name ≡ ok name
unfolding workflow_name
workflow_name_again raw h = ground (arith, trim-trim raw)

workflow_version_again :
    (raw : Text) {name : WorkflowVersion}
    → workflow_version raw ≡ ok name
    → workflow_version name ≡ ok name
unfolding workflow_version
workflow_version_again raw h = elim (Bool-cases (is_empty (trim raw))) [
  | inl e ↦ cc (h, e)
  | inr e ↦ cc (h, e, trim-trim raw)
]

step_name_again :
    (raw : Text) {name : StepName} → step_name raw ≡ ok name → step_name name ≡ ok name
unfolding step_name
step_name_again raw h = grind (arith, trim-trim raw)

attempt_number_again : (n : ℕ) {k : Attempt} → attempt_number n ≡ ok k → attempt_number k ≡ ok k
unfolding attempt_number
attempt_number_again n h = ground arith

-- A result of decoding that is well-formed when there is one.
abbrev DecodesWell : Result JournalEvent JournalError → Type 0
DecodesWell (ok e) = IsWellFormed e
DecodesWell (err e) = Unit

malformed_then :
    {A E : Type 0} (text : E → Text) (r : Result A E) (f : A → Result JournalEvent JournalError)
    → ((a : A) → r ≡ ok a → DecodesWell (f a))
    → DecodesWell (malformed text r >>= f)
malformed_then text (ok a) f g = g a refl
malformed_then text (err e) f g = tt

module _ (messages : Messages) where
  -- An event whose names and attempts their constructors accept is read back from its record
  -- unchanged.
  pub from_record-to_record :
      (e : JournalEvent) → IsWellFormed e → from_record messages (to_record e) ≡ ok e
  unfolding from_record to_record
  from_record-to_record (JournalEvent.execution_started w v p) (hw, hv) = rw (hw, hv)
  from_record-to_record (JournalEvent.step_scheduled seq name) h = rw h
  from_record-to_record (JournalEvent.step_started seq k) h = rw h
  from_record-to_record (JournalEvent.step_failed seq k error) h = rw h
  from_record-to_record _ h = refl

  -- What is decoded has names and attempts that their constructors accept.
  decoded_well_formed : (r : JournalEventRecord) → DecodesWell (from_record messages r)
  unfolding from_record
  decoded_well_formed (JournalEventRecord.execution_started w v p) =
      malformed_then messages.of_name (workflow_name w) _ λ name h.
        malformed_then messages.of_version (workflow_version v) _
          λ version k. (workflow_name_again w h, workflow_version_again v k)
  decoded_well_formed (JournalEventRecord.step_scheduled seq raw) =
      malformed_then messages.of_step (step_name raw) _ λ name h. step_name_again raw h
  decoded_well_formed (JournalEventRecord.step_started seq n) =
      malformed_then messages.of_attempt (attempt_number n) _ λ k h. attempt_number_again n h
  decoded_well_formed (JournalEventRecord.step_failed seq n error) =
      malformed_then messages.of_attempt (attempt_number n) _ λ k h. attempt_number_again n h
  decoded_well_formed _ = tt

  -- Whatever event is read from a record has names and attempts that their constructors accept
  -- unchanged.
  pub from_record-IsWellFormed :
      (r : JournalEventRecord) {e : JournalEvent} → from_record messages r ≡ ok e → IsWellFormed e
  from_record-IsWellFormed r h = subst DecodesWell h (decoded_well_formed r)
