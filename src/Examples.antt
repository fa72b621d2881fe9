-- ===== src/Examples.antt =====
-- Concrete inputs, tests of the definitions, and the theorems applied where their hypotheses hold.
pub mod Samples
mod Merging
mod Approvals
mod Closings
mod Requests
mod Sweeps
mod Pushes
mod Notices
mod NoOps
mod Systems
mod Purges
mod Members
mod Files
mod Mentions
mod Loads
mod Discoveries
mod Texts
