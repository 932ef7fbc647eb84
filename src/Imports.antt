-- ===== src/Imports.antt =====
-- pearlarr/manual_import.py: the vocabulary of the import path. `Names` folds names and paths, `Maps`
-- the maps from names to episodes, `Record` has the pending record with its claims, `Stored` its
-- persisted form, `Outcomes` the outcomes of a poll and what a torrent's row says.
pub mod Names
pub mod Paths
pub mod Maps
pub mod Record
pub mod Stored
pub mod Outcomes
pub mod History
pub mod Folded
pub mod Placed
pub mod Roundtrip
pub mod Claims
mod Tests
