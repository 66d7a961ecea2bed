-- ===== src/History/Bounds.antt =====
-- The numbers in a journal that src/history.rs accepts.
use yaoki.Prelude.{ℕ, suc, ◌≤◌, ◌<◌, List, [], ◌∷◌, ◌≡◌, ok, All, arith, >>=-eq-ok}
use yaoki.Seq
use yaoki.Seq.{Seq, u64_max}
use yaoki.Step.{u32_max, next_attempt}
use yaoki.Journal.{
  JournalEvent, Journal, execution_started, step_scheduled, step_started, step_completed,
  step_failed, now_recorded, random_recorded, timer_scheduled, timer_fired, execution_completed,
  execution_failed,
}
use yaoki.History.{HistoryState, ready, scheduled, started, timer, advance, walk, scan}

-- A position that is not the last, and an attempt that is a `NonZeroU32`.
abbrev pub IsNumbered : JournalEvent → Type 0
IsNumbered (step_scheduled seq name) = seq < u64_max
IsNumbered (step_started seq attempt) = (seq < u64_max) × (1 ≤ attempt) × (attempt ≤ u32_max)
IsNumbered (step_completed seq result) = seq < u64_max
IsNumbered (step_failed seq attempt error) = (seq < u64_max) × (1 ≤ attempt) × (attempt ≤ u32_max)
IsNumbered (now_recorded seq value) = seq < u64_max
IsNumbered (random_recorded seq value) = seq < u64_max
IsNumbered (timer_scheduled seq deadline) = seq < u64_max
IsNumbered (timer_fired seq) = seq < u64_max
IsNumbered _ = Unit

abbrev IsBounded : HistoryState → Type 0
IsBounded (ready seq) = seq ≤ u64_max
IsBounded (scheduled seq) = seq < u64_max
IsBounded (started seq attempt) = (seq < u64_max) × (1 ≤ attempt) × (attempt ≤ u32_max)
IsBounded (timer seq) = seq < u64_max
IsBounded _ = Unit

advance-IsBounded :
    (state state' : HistoryState) (event : JournalEvent) (offset : ℕ)
    → IsBounded state
    → advance state event offset ≡ ok state'
    → IsNumbered event × IsBounded state'
unfolding advance Seq.next next_attempt
advance-IsBounded state state' (execution_started w v p) offset b h = ground (arith)
advance-IsBounded state state' (step_scheduled seq name) offset b h = ground (arith)
advance-IsBounded state state' (step_started seq attempt) offset b h = ground (arith)
advance-IsBounded state state' (step_completed seq result) offset b h = ground (arith)
advance-IsBounded state state' (step_failed seq attempt error) offset b h = ground (arith)
advance-IsBounded state state' (now_recorded seq value) offset b h = ground (arith)
advance-IsBounded state state' (random_recorded seq value) offset b h = ground (arith)
advance-IsBounded state state' (timer_scheduled seq deadline) offset b h = ground (arith)
advance-IsBounded state state' (timer_fired seq) offset b h = ground (arith)
advance-IsBounded state state' (execution_completed output) offset b h = ground (arith)
advance-IsBounded state state' (execution_failed error) offset b h = ground (arith)

walk-IsNumbered :
    (i : ℕ) (state : HistoryState) (events : List JournalEvent) {state' : HistoryState}
    → IsBounded state
    → walk i state events ≡ ok state'
    → All IsNumbered events
unfolding walk
walk-IsNumbered i state [] b h = tt
walk-IsNumbered i state (event ∷ events) b h =
    let (next, e, rest) = >>=-eq-ok (advance state event i) (λ s. walk (suc i) s events) h in
    let (numbered, bounded) = advance-IsBounded state next event i b e in
    (numbered, walk-IsNumbered (suc i) next events bounded rest)

-- In a journal that `scan` accepts, every position is below the largest `u64`, so that it has a successor, and every
-- attempt is at least one and at most the largest `u32`.
pub scan-IsNumbered :
    (events : Journal) (state : HistoryState) → scan events ≡ ok state → All IsNumbered events
unfolding scan
scan-IsNumbered [] state h = tt
scan-IsNumbered (execution_started w v p ∷ events) state h =
    (tt, walk-IsNumbered 1 (ready Seq.zero) events (omega arith) h)
scan-IsNumbered (_ ∷ events) state h = absurd (cc)
