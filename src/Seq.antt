-- ===== src/Seq.antt =====
-- `Seq` and `EventOffset` of src/journal.rs: the position of a command, a `u64` whose successor is
-- checked, and the offset of an event, a `usize`.
use yaoki.Prelude.{ℕ, ◌+◌, ◌-◌, ◌^◌, ltb, if◌then◌else◌, Result, ok, err}

abbrev pub u64_max : ℕ
u64_max = 2 ^ 64 - 1

-- 0-based position of a command in an execution's command sequence.
abbrev pub Seq : Type 0
Seq = ℕ

pub data SeqError : Type 0 where
  overflow : SeqError

abbrev pub zero : Seq
zero = 0

-- `checked_add(1)`
unfoldable pub next : Seq → Result Seq SeqError
next seq = if ltb seq u64_max then ok (seq + 1) else err SeqError.overflow

-- Zero-based offset of an event in its journal. A journal lies in memory, so its length, and with
-- it every offset, is a `usize` that does not wrap.
abbrev pub EventOffset : Type 0
EventOffset = ℕ
