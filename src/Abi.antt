-- ===== src/Abi.antt =====
-- evm/abi.rs: the ABI values of transaction data, their encoding and their decoding.
pub mod Words
pub mod Syntax
pub mod Encode
pub mod Decode
pub mod Template
pub mod Rounds
pub mod RoundTrip
pub mod TypeNames
pub mod Counter
pub mod Splits
pub mod Sizes
mod Tests
