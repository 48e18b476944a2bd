-- ===== src/Cheatcode.antt =====
-- evm/middlewares/cheatcode: the assertion cheatcodes.
pub mod Numbers
pub mod Errors
pub mod Checks
pub mod Asserts
pub mod Calls
pub mod Holds
pub mod Decisions
pub mod Judgements
pub mod Verdicts
mod Tests
