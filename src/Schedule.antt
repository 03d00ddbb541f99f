-- ===== src/Schedule.antt =====
-- src/backend/optimizer.rs: schedule_region, which reorders a run of pure instructions.
pub mod Ports
pub mod Pressure
pub mod Region
pub mod Outcome
pub mod Orders
pub mod Counts
pub mod Graph
pub mod Kahn
pub mod Loop
pub mod Ends
pub mod Start
pub mod Total
pub mod Pass
pub mod Entries
pub mod Kept
pub mod Segments
mod Examples
