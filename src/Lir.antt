-- ===== src/Lir.antt =====
-- src/backend/lir.rs: slots, known and demanded bits, live intervals.
pub mod Slots
pub mod Limits
pub mod KnownBits
pub mod Described
pub mod Facts
pub mod Normalized
pub mod Flow
pub mod Ranges
pub mod Demand
pub mod Demanded
pub mod Intervals
pub mod Verify
mod Examples
