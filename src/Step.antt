-- ===== src/Step.antt =====
-- src/step.rs: step names, attempts (a `u32` counted from 1 whose successor is checked), recorded
-- step errors and idempotency keys.
use yaoki.Prelude.{
  ℕ, ◌+◌, ◌-◌, ◌^◌, [], ◌∷◌, Bool, true, ◌&&◌, ◌||◌, ltb, leb, ◌==◌, nat_eq, if◌then◌else◌, Result,
  ok, err,
}
use yaoki.Text.{Text, trim, is_empty}
use yaoki.Execution.{ExecutionId}
use yaoki.Seq.{Seq}

abbrev pub StepName : Type 0
StepName = Text

pub data StepNameError : Type 0 where
  empty : StepNameError
  invalid_characters : Text → StepNameError

-- `c.is_ascii_lowercase() || c.is_ascii_digit() || c == '-'`
unfoldable pub is_name_char : ℕ → Bool
is_name_char c = leb b'a' c && leb c b'z' || leb b'0' c && leb c b'9' || c == b'-'

unfoldable pub all_name_chars : Text → Bool
all_name_chars [] = true
all_name_chars (c ∷ s) = is_name_char c && all_name_chars s

unfoldable pub step_name : Text → Result StepName StepNameError
step_name raw =
    let trimmed = trim raw in
    if is_empty trimmed
    then err StepNameError.empty
    else if all_name_chars trimmed
    then ok trimmed
    else err (StepNameError.invalid_characters trimmed)

abbrev pub u32_max : ℕ
u32_max = 2 ^ 32 - 1

-- 1-based retry attempt counter for a step.
abbrev pub Attempt : Type 0
Attempt = ℕ

pub data AttemptError : Type 0 where
  zero_attempt : AttemptError

pub data AttemptOverflow : Type 0 where
  attempt_overflow : AttemptOverflow

abbrev pub first_attempt : Attempt
first_attempt = 1

unfoldable pub attempt_number : ℕ → Result Attempt AttemptError
attempt_number n = if n == 0 then err zero_attempt else ok n

-- `checked_add(1)`
unfoldable pub next_attempt : Attempt → Result Attempt AttemptOverflow
next_attempt attempt = if ltb attempt u32_max then ok (attempt + 1) else err attempt_overflow

pub record StepErrorRecord : Type 0 where
  pub message : Text

-- Handed to every step body so that external calls can deduplicate.
pub record IdempotencyKey : Type 0 where
  pub execution : ExecutionId
  pub seq : Seq
