-- ===== src/Examples.antt =====
-- Concrete accounts and calls, on which the theorems on rs/src are tried.
pub mod Chain
pub mod ChainPay
pub mod ChainLaws
pub mod Scene
pub mod StateTests
pub mod InstructionTests
pub mod CreateTests
pub mod UnlockTests
pub mod ChangeTests
pub mod EntryTests
pub mod SolvencyTests
pub mod FuzzScene
pub mod FuzzTests
pub mod FlowScene
pub mod FlowTests
