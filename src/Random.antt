-- ===== src/Random.antt =====
-- src/random.rs: `RandomBytes`, 32 bytes drawn from a source of randomness and journaled.
use yaoki.Text.{Bytes}

-- `[u8; 32]`; that a draw has 32 bytes is what the source of randomness promises.
abbrev pub RandomBytes : Type 0
RandomBytes = Bytes
