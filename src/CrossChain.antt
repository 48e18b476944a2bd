-- ===== src/CrossChain.antt =====
-- Dual-chain fuzzing (evm/cross_chain, evm/middlewares/cross_chain_interceptor.rs,
-- evm/oracles/cross_chain.rs, evm/oracles/reentrancy_crosschain.rs).
pub mod Message
pub mod Queue
pub mod State
pub mod Interceptor
pub mod Oracle
pub mod ExploitStep
pub mod Rng
pub mod Executor
pub mod Deposit
pub mod Relay
pub mod Backing
pub mod ExploitPath
pub mod Mutator
pub mod Runs
pub mod Fuzzer
mod Tests
