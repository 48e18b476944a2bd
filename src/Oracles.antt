-- ===== src/Oracles.antt =====
-- The oracles on snapshots of storage slots and pools, and their composition.
pub mod AccessControl
pub mod IntegerOverflow
pub mod PriceOracle
pub mod Gap
pub mod Reports
