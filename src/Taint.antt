-- ===== src/Taint.antt =====
-- evm/middlewares/sha3_bypass.rs: which stack slots, memory bytes and storage slots depend on a hash.
pub mod State
pub mod Opcodes
pub mod Step
pub mod Arity
pub mod Arms
pub mod Frames
pub mod Sizes
pub mod Follow
mod Tests
