-- ===== src/Episodes.antt =====
-- pearlarr/episode_state.py: how an episode's file on disk stands to a pending import's. Of the
-- episode index (pearlarr/placement_types.py) the module reads the episodes by id.
pub mod Statuses
pub mod Snapshot
pub mod Routes
pub mod Judged
pub mod Routed
pub mod Trust
mod Tests
