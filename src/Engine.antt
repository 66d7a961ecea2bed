-- ===== src/Engine.antt =====
-- src/engine.rs: the lifecycle of an execution and the engine that runs or recovers a workflow.
-- Invocation.antt reads the start record, Lifecycle.antt has the execution handles, Workflow.antt
-- the workflows, Run.antt the engine. The other modules are proofs.
pub mod Invocation
pub mod Lifecycle
pub mod Workflow
pub mod Run
pub mod Streams
pub mod Legality
pub mod Safety
pub mod Entry
pub mod Start
pub mod Recovery
pub mod Fault
pub mod Recorded
pub mod Answers
pub mod Once
pub mod Durable
