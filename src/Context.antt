-- ===== src/Context.antt =====
-- src/context.rs: the context through which a workflow requests effects. Cursor.antt is the replay
-- cursor, State.antt the context, its errors and the actions on it; Now, Random, Sleep and Step are
-- the four commands. The other modules are proofs.
pub mod Cursor
pub mod State
pub mod Monad
pub mod Now
pub mod Random
pub mod Sleep
pub mod Step
pub mod Triple
pub mod Legality
pub mod Replay
pub mod Keeps
pub mod Commands
pub mod Replayed
pub mod Frame
