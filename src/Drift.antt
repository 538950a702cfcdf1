-- ===== src/Drift.antt =====
-- src/nctl_core/drift: diff records, the event log that bears on them, and statuses.
pub mod Model
pub mod Operations
pub mod Status
pub mod ActuationEvents
pub mod Converging
pub mod IpRanges
pub mod Comparators
pub mod Engine
pub mod Bindings
pub mod Placements
mod Examples
