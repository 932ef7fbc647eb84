-- ===== src/Planner.antt =====
-- pearlarr/planner.py: which SeaDex releases of an entry to grab. `Types` has the results,
-- `Coverage` the grouping of releases by the files they cover, `Reduce` the reduction of
-- overlapping downloads.
pub mod Types
pub mod Coverage
pub mod Reduce
pub mod Ownership
pub mod Match
pub mod Plan
mod Tests
