-- ===== src/Allocator.antt =====
-- src/backend/allocator.rs: the sharded allocator with local and remote free lists.
pub mod Layout
pub mod Shard
pub mod Sharded
pub mod Blocks
pub mod Serving
pub mod Whole
pub mod Sizes
pub mod History
mod Examples
