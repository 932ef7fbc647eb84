-- ===== src/Wait.antt =====
-- pearlarr/import_wait.py and pearlarr/pending_records.py: the wait for the downloads and their import
-- at the end of a run. `Clock` has the ready deadline of one row, `Records` the store, `Cleanup` the
-- effects after an import, `Pass` the rows of a pass. A moment is a number of seconds.
pub mod Clock
pub mod Records
pub mod Cleanup
pub mod Rows
pub mod Advance
pub mod Pass
pub mod Runs
pub mod Stall
pub mod Credit
pub mod Graduate
pub mod Account
pub mod Kept
pub mod Retired
pub mod Polls
pub mod Retries
mod Tests
