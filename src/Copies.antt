-- ===== src/Copies.antt =====
-- src/backend/optimizer.rs: the operands and the instructions that the removal of copies changes.
pub mod Rewrite
pub mod Remove
pub mod Rewritten
pub mod Moved
mod Examples
