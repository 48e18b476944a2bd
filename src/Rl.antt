-- ===== src/Rl.antt =====
-- rl_scheduler.rs: the reinforcement-learning scheduler and its rewards.
pub mod Metadata
pub mod Reward
pub mod Pruning
pub mod Schedule
pub mod Removal
pub mod RelaySignal
