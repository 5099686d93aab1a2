-- ===== src/Runtime.antt =====
-- What rs/src/processor.rs uses of the Solana runtime and of the SPL token library: the accounts
-- as shared memory, the calls as a record of operations, and what their documents promise.
pub mod Action
pub mod Calls
pub mod Documented
pub mod Steps
pub mod Store
pub mod Atomic
