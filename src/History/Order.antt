-- ===== src/History/Order.antt =====
-- The order of the commands in a journal that src/history.rs accepts.
use yaoki.Prelude.{
  ℕ, zero, suc, ◌+◌, List, [], ◌∷◌, ◌≡◌, ◌⊎◌, inl, inr, refl, ◌∙◌, ap, ok, Option, none, some,
  length, arith, >>=-eq-ok,
}
use yaoki.Seq
use yaoki.Seq.{Seq, u64_max}
use yaoki.Step.{next_attempt}
use yaoki.Journal.{
  JournalEvent, Journal, execution_started, step_scheduled, step_started, step_completed,
  step_failed, now_recorded, random_recorded, timer_scheduled, timer_fired, execution_completed,
  execution_failed,
}
use yaoki.History.{
  HistoryState, ready, scheduled, started, timer, completed, failed, advance, walk, scan,
}

-- The position of an event that begins a command.
abbrev pub command_seq : JournalEvent → Option Seq
command_seq (step_scheduled seq name) = some seq
command_seq (now_recorded seq value) = some seq
command_seq (random_recorded seq value) = some seq
command_seq (timer_scheduled seq deadline) = some seq
command_seq _ = none

abbrev pub with_command : Option Seq → List Seq → List Seq
with_command none rest = rest
with_command (some seq) rest = seq ∷ rest

-- The positions of the commands, in the order of the journal.
unfoldable pub commands : List JournalEvent → List Seq
commands [] = []
commands (event ∷ events) = with_command (command_seq event) (commands events)

-- So many numbers, from one on.
unfoldable pub count_from : ℕ → ℕ → List ℕ
count_from n zero = []
count_from n (suc k) = n ∷ count_from (n + 1) k

-- The position of the next command; none comes behind a terminal event.
abbrev next_of : HistoryState → ℕ
next_of (ready n) = n
next_of (scheduled n) = n + 1
next_of (started n attempt) = n + 1
next_of (timer n) = n + 1
next_of _ = 0

abbrev HasEnded : HistoryState → Type 0
HasEnded (completed output) = Unit
HasEnded (failed error) = Unit
HasEnded _ = ⊥

-- What an event does to the position of the next command.
abbrev Follows : Option Seq → HistoryState → HistoryState → Type 0
Follows none state state' = (next_of state' ≡ next_of state) ⊎ HasEnded state'
Follows (some seq) state state' = (next_of state ≡ seq) × (next_of state' ≡ seq + 1)

advance-Follows :
    (state state' : HistoryState) (event : JournalEvent) (offset : ℕ)
    → advance state event offset ≡ ok state'
    → Follows (command_seq event) state state'
unfolding advance Seq.next next_attempt
advance-Follows state state' (execution_started w v p) offset h = ground (arith)
advance-Follows state state' (step_scheduled seq name) offset h = ground (arith)
advance-Follows state state' (step_started seq attempt) offset h = ground (arith)
advance-Follows state state' (step_completed seq result) offset h = ground (arith)
advance-Follows state state' (step_failed seq attempt error) offset h = ground (arith)
advance-Follows state state' (now_recorded seq value) offset h = ground (arith)
advance-Follows state state' (random_recorded seq value) offset h = ground (arith)
advance-Follows state state' (timer_scheduled seq deadline) offset h = ground (arith)
advance-Follows state state' (timer_fired seq) offset h = ground (arith)
advance-Follows state state' (execution_completed output) offset h = ground (arith)
advance-Follows state state' (execution_failed error) offset h = ground (arith)

-- Nothing is accepted behind a terminal event.
advance-HasEnded :
    (state state' : HistoryState) (event : JournalEvent) (offset : ℕ)
    → HasEnded state
    → advance state event offset ≡ ok state'
    → ⊥
unfolding advance
advance-HasEnded state state' (execution_started w v p) offset e h = ground (arith)
advance-HasEnded state state' (step_scheduled seq name) offset e h = ground (arith)
advance-HasEnded state state' (step_started seq attempt) offset e h = ground (arith)
advance-HasEnded state state' (step_completed seq result) offset e h = ground (arith)
advance-HasEnded state state' (step_failed seq attempt error) offset e h = ground (arith)
advance-HasEnded state state' (now_recorded seq value) offset e h = ground (arith)
advance-HasEnded state state' (random_recorded seq value) offset e h = ground (arith)
advance-HasEnded state state' (timer_scheduled seq deadline) offset e h = ground (arith)
advance-HasEnded state state' (timer_fired seq) offset e h = ground (arith)
advance-HasEnded state state' (execution_completed output) offset e h = ground (arith)
advance-HasEnded state state' (execution_failed error) offset e h = ground (arith)

walk-HasEnded :
    (i : ℕ) (state : HistoryState) (events : List JournalEvent) {state' : HistoryState}
    → HasEnded state
    → walk i state events ≡ ok state'
    → commands events ≡ []
unfolding walk commands
walk-HasEnded i state [] e h = refl
walk-HasEnded i state (event ∷ events) e h =
    let (next, first, rest) = >>=-eq-ok (advance state event i) (λ s. walk (suc i) s events) h in
    absurd (advance-HasEnded state next event i e first)

with_command-count :
    (o : Option Seq) (state state' : HistoryState) (rest : List Seq)
    → Follows o state state'
    → (rest ≡ count_from (next_of state') (length rest))
    → (HasEnded state' → rest ≡ [])
    → with_command o rest ≡ count_from (next_of state) (length (with_command o rest))
unfolding count_from
with_command-count none state state' rest (inl e) h d = h ∙ ap (λ n. count_from n (length rest)) e
with_command-count none state state' rest (inr e) h d = rw (d e) refl
with_command-count (some seq) state state' rest (e, e') h d =
    rw e (ap (λ t. seq ∷ t) (h ∙ ap (λ n. count_from n (length rest)) e'))

walk-commands :
    (i : ℕ) (state : HistoryState) (events : List JournalEvent) {state' : HistoryState}
    → walk i state events ≡ ok state'
    → commands events ≡ count_from (next_of state) (length (commands events))
unfolding walk commands count_from
walk-commands i state [] h = refl
walk-commands i state (event ∷ events) h =
    let (next, e, rest) = >>=-eq-ok (advance state event i) (λ s. walk (suc i) s events) h in
    with_command-count (command_seq event) state next (commands events)
      (advance-Follows state next event i e) (walk-commands (suc i) next events rest)
      (λ d. walk-HasEnded (suc i) next events d rest)

-- In a journal that `scan` accepts, the commands have the positions 0, 1, 2 and so on, in this order, without a gap
-- and without a repetition.
pub scan-commands :
    (events : Journal) (state : HistoryState)
    → scan events ≡ ok state
    → commands events ≡ count_from 0 (length (commands events))
unfolding scan commands count_from
scan-commands [] state h = refl
scan-commands (execution_started w v p ∷ events) state h = walk-commands 1 (ready Seq.zero) events h
scan-commands (_ ∷ events) state h = absurd (cc)
