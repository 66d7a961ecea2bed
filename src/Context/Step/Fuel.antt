-- ===== src/Context/Step/Fuel.antt =====
-- The loop over recorded attempts in `replay_step_outcome` of src/context.rs, and the fuel of its model.
use yaoki.Prelude.{
  ℕ, zero, suc, ◌+◌, ◌≤◌, ◌≢◌, ◌≡◌, refl, [], ◌∷◌, Option, none, some, Result, length, get_elem?,
  arith,
}
use yaoki.Seq.{Seq}
use yaoki.Step.{Attempt, AttemptOverflow, next_attempt}
use yaoki.Journal.{JournalEvent, Journal, step_started}
use yaoki.Context.Cursor
use yaoki.Context.Cursor.{ReplayCursor}
use yaoki.Context.Step.{skip_attempts}

-- No attempt is at the cursor.
abbrev pub PastAttempts : ReplayCursor × Result Attempt AttemptOverflow → Type 0
PastAttempts (cursor, next) = (m : Seq) (k : Attempt) → Cursor.peek cursor ≢ some (step_started m k)

get_elem?-inside :
    (es : Journal) (i : ℕ) {e : JournalEvent} → get_elem? es i ≡ some e → suc i ≤ length es
get_elem?-inside [] i h = cc
get_elem?-inside (e ∷ es) zero h = omega arith
get_elem?-inside (e ∷ es) (suc i) h = omega (arith, get_elem?-inside es i h)

peeked :
    (cursor : ReplayCursor) {e : JournalEvent}
    → Cursor.peek cursor ≡ some e
    → get_elem? (Cursor.events cursor) cursor.position ≡ some e
unfolding Cursor.peek
peeked cursor h = h

-- At an event the cursor moves on by one, in the same journal.
advance-events :
    (cursor : ReplayCursor) → Cursor.events (Cursor.advance cursor) ≡ Cursor.events cursor
unfolding Cursor.advance
advance-events cursor = ground arith

advance-position :
    (cursor : ReplayCursor) {e : JournalEvent}
    → Cursor.peek cursor ≡ some e
    → (Cursor.advance cursor).position ≡ cursor.position + 1
unfolding Cursor.advance Cursor.peek Cursor.is_exhausted
advance-position cursor h =
    ground (arith, get_elem?-inside (Cursor.events cursor) cursor.position h)

-- One round: at an attempt the loop goes on behind it, and stops at anything else.
round-PastAttempts :
    (fuel : ℕ) (cursor : ReplayCursor) (next : Result Attempt AttemptOverflow)
    (o : Option JournalEvent)
    → Cursor.peek cursor ≡ o
    → ((k : Attempt)
        → (Cursor.advance cursor).position ≡ cursor.position + 1
        → PastAttempts (skip_attempts fuel (Cursor.advance cursor) (next_attempt k)))
    → PastAttempts (skip_attempts (suc fuel) cursor next)
unfolding skip_attempts
round-PastAttempts fuel cursor next none e go = rw (e, skip_attempts) λ m k h. cc (e, h)
round-PastAttempts fuel cursor next (some (step_started m k)) e go =
    rw (e, skip_attempts) (go k (advance-position cursor e))
round-PastAttempts fuel cursor next (some _) e go = rw (e, skip_attempts) λ m k h. cc (e, h)

-- With fuel for the events from the cursor on, the loop over recorded attempts stops at an event
-- that is not the start of an attempt, or at the end of the journal: it never stops for want of
-- fuel.
pub skip_attempts-PastAttempts :
    (fuel : ℕ) (cursor : ReplayCursor) (next : Result Attempt AttemptOverflow)
    → length (Cursor.events cursor) ≤ cursor.position + fuel
    → PastAttempts (skip_attempts fuel cursor next)
unfolding skip_attempts
skip_attempts-PastAttempts zero cursor next h = λ m k e.
    let n = get_elem?-inside (Cursor.events cursor) cursor.position (peeked cursor e) in
    omega (arith, n, h)
skip_attempts-PastAttempts (suc fuel) cursor next h =
    round-PastAttempts fuel cursor next (Cursor.peek cursor) refl (λ k moved.
      skip_attempts-PastAttempts fuel (Cursor.advance cursor) (next_attempt k)
        (rw (advance-events cursor, moved) (omega arith)))
