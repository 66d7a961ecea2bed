-- ===== src/Time.antt =====
-- src/time.rs: instants in milliseconds since the epoch, and absolute deadlines, as `u64`s.
pub mod Clock
use yaoki.Prelude.{ℕ}

abbrev pub Timestamp : Type 0
Timestamp = ℕ

pub record Deadline : Type 0 where
  pub timestamp : Timestamp
