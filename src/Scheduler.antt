-- ===== src/Scheduler.antt =====
-- The corpus schedulers: scheduler.rs and rl_scheduler.rs.
pub mod Tree
pub mod Sort
pub mod State
pub mod Votes
pub mod Voting
pub mod Walks
