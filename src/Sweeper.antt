-- ===== src/Sweeper.antt =====
-- internal/sweeper: the periodic pass and the recovery at start.
pub mod Expiry
pub mod Reconcile
pub mod Reconstruct
pub mod Pass
pub mod Recovery
