-- ===== src/Reentrancy.antt =====
-- evm/middlewares/reentrancy.rs: which storage slots are read, read again deeper, and then written.
pub mod Tracer
pub mod Sorted
pub mod Pattern
mod Tests
