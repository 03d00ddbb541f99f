-- ===== src/Superopt.antt =====
-- src/backend/optimizer.rs: the superoptimizer that replaces single instructions by cheaper ones.
pub mod Evaluate
pub mod Rewrite
pub mod Identities
pub mod Soundness
pub mod Verify
pub mod Cost
pub mod Run
pub mod Execute
mod Examples
