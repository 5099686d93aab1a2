-- ===== src/Processor.antt =====
-- rs/src/processor.rs: the handlers, and the dispatch on the instruction.
pub mod Init
pub mod Create
pub mod Unlock
pub mod ChangeDestination
pub mod Dispatch
pub mod Sequence
pub mod Lifecycle
pub mod Isolation
pub mod Solvency
