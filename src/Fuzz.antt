-- ===== src/Fuzz.antt =====
-- The honggfuzz harness of the program, rs/hfuzz/src/vesting_fuzz.rs, and the random instructions of
-- rs/src/instruction.rs that feed it.
pub mod Outside
pub mod Keys
pub mod Harness
pub mod Run
pub mod Progress
pub mod Correct
pub mod Promises
pub mod CreateEnds
pub mod Mismatch
pub mod KeyInvariant
pub mod Signers
pub mod Signatures
pub mod Required
pub mod Unsigned
pub mod Arbitrary
pub mod Tolerated
pub mod Outcome
