-- ===== src/Sonarr.antt =====
-- pearlarr/video_files.py, pearlarr/import_files.py and pearlarr/import_quality.py: what of the files on
-- disk is imported, onto which episodes and at which quality. The quality that a file name spells is
-- read by regular expressions and left out. pearlarr/sonarr_import.py: the poll of a completed download
-- and the manual import that it posts.
pub mod Videos
pub mod Files
pub mod Quality
pub mod Planned
pub mod Payload
pub mod Execute
pub mod Seeds
pub mod Reconcile
pub mod Issued
mod Posts
mod Tests
