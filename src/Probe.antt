-- ===== src/Probe.antt =====
-- pearlarr/probe_verdicts.py: the verdicts over Sonarr's queue, its commands and its history, in
-- one child module each, and the records of pearlarr/seadex_types.py that they read.
pub mod Queue
pub mod Commands
pub mod History
mod Tests
