-- ===== src/Lib.antt =====
-- A model of yaoki, a durable execution engine: a workflow's effects are recorded in a journal, and
-- an execution that was cut short is replayed from it.
--
-- The parts, and how they meet. src/execution.rs, src/step.rs, src/journal.rs (positions and
-- events), src/random.rs, src/time.rs and src/command.rs have the data. src/history.rs reads a
-- journal with an automaton, one event at a time. src/context.rs has the context that a workflow
-- runs against: each of its commands takes a position, then replays the recorded result or makes
-- the effect and records it. src/engine.rs starts, recovers and ends an execution and runs the
-- workflow between. Journals are kept by a store, src/stores/memory.rs or src/stores/file.rs.
-- src/failpoints.rs injects crashes. src/equivalence.rs compares traces of effects.
--
-- Which file models which part:
-- - Text, Random, Execution, Seq, Step, Time, Command and Journal: the data. Time/Clock has the two
--   clocks of src/time.rs. Text.trim is the trim of Rust's str, on code points.
-- - Journal/Store: the trait JournalStore as a record of operations, and the contract that its
--   documentation states; Journal/Extends: append-only growth; Journal/WellFormed: the events that
--   the constructors of names and attempts allow.
-- - History: HistoryState::advance is advance, the fold of ValidatedHistory::parse is walk, its
--   part before ensure_resumable is scan. History/Order and History/Bounds say how positions and
--   attempts are numbered.
-- - Failpoints: CrashPoint and the policies.
-- - Context: Cursor is ReplayCursor, State is WorkflowCtx, Monad has the calls that the commands
--   share, and Now, Random, Sleep and Step have one command each; the modules called Replayed
--   compare a command with the replay of its record. A command resolve_x is take_seq, then the
--   match on the mode (decide_x, match_x), then the match on the decision (answer_x).
-- - Engine: Invocation, Lifecycle (Execution and its states), Workflow (the trait) and Run
--   (Engine); the other modules are proofs.
-- - Memory: MemoryJournal. Memory/Contract fills the contract.
-- - Codec: JournalEventRecord of src/stores/file.rs and its conversions.
-- - Crc, Numbers and Frames: crc32, the numbers in the header of a frame (format! and the parsers
--   of the standard library), encode_frame, parse_one_frame and parse_frames of src/stores/file.rs.
--   Frames/Shape says which bytes are a frame, Frames/Torn what a write that was cut short leaves.
-- - FileSystem: the calls of src/stores/file.rs to the operating system as an interface with laws.
--   A call may fail, a write that fails may have written a part, Path::exists is false also where
--   the metadata cannot be read, and a lock outlives its handle where the unlock failed and another
--   process inherited a copy.
-- - FileStore: FileJournal over that interface. Payload has serde_json as a parameter, Calls the
--   operator ?; FileStore/View says which journal a file stands for, FileStore/Contract fills the
--   contract where the metadata of files can be read and leases can free their locks,
--   FileStore/Unhealed has an append to a file that Path::exists does not see, and
--   FileStore/Exclusive sequences of operations by several callers.
-- - Equivalence: EffectTrace and the three predicates (exact, single_adjacent_duplicate,
--   ordered_retries).
-- - Tests: concrete runs; a file system that fails by a plan and a codec that keep the laws.
--
-- Choices. The states of the store and of the world outside (clock, randomness, failpoint policy,
-- what the step bodies touch) are threaded through every call. The drop of a handle is an explicit
-- release of its stream. A mutex is its poison flag. A workflow is the tree of its requests, so the
-- workflows here are those that return. Positions, attempts and instants are natural numbers; the
-- successors are checked against the largest u64 and u32 as in the source. The loop over recorded
-- attempts has fuel, the number of events in the cursor's journal, and does not use it up. The loop
-- of parse_frames has fuel, one more than the number of bytes; a frame has a byte at least. A
-- payload is no longer than isize::MAX, as no vector is. Values of the validated types are texts
-- and numbers; that their constructors accept them is a hypothesis where the file store depends on
-- it, and a part of a workflow and of its requests for steps.
--
-- A context stands between two commands when its journal can be read and, unless a fault is
-- retained, it is live behind a state of the automaton that is ready for its position, or its
-- cursor is in step with the journal there.
--
-- Not modelled: the creation of the directory by FileJournal::new, the loss of power behind a sync,
-- writers that do not take the lock, and the demonstration programs. serde, thiserror and the
-- standard library are used through what they are documented to do.
pub mod Prelude
pub mod Text
pub mod Random
pub mod Execution
pub mod Seq
pub mod Step
pub mod Time
pub mod Command
pub mod Journal
pub mod History
pub mod Failpoints
pub mod Context
pub mod Engine
pub mod Memory
pub mod Crc
pub mod Numbers
pub mod Frames
pub mod FileSystem
pub mod FileStore
pub mod Codec
pub mod Equivalence
pub mod Tests
