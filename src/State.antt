-- ===== src/State.antt =====
-- rs/src/state.rs: the contract's stored form, a header and an array of schedules.
pub mod Schedule
pub mod Header
pub mod Schedules
pub mod Layout
pub mod RoundTrip
pub mod PackUnpack
pub mod Decoding
