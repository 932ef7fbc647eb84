-- ===== src/Lib.antt =====
-- Pearlarr: the release planner and the verdicts around it.
--
-- Pearlarr walks the titles of a Sonarr or Radarr library. For each it fetches the SeaDex entry,
-- filters its torrents into a dictionary of releases, plans which of them to grab against what the
-- arr holds, and later watches the downloads into Sonarr. This library models the decisions of that
-- walk; the clients, the storage and the output are not modelled.
--
-- Base: what Python's lists, sets, dicts and Counters do, on lists, and their lemmas. A dict is an
-- association list in insertion order, a set a list read by membership.
-- Text: the `str` methods in use on lists of code points, with the name normalisers of
-- pearlarr/manual_import.py. `casefold` is exact below U+0100.
-- Releases: pearlarr/seadex_types.py. SeadexDict maps a group to its ReleaseGroup, which maps a url
-- to its UrlItem. Where the program changes an item through a reference, the model changes the item
-- at its group and key (`modify_url`), and a loop that changes items is a fold over the dictionary.
-- Filter: pearlarr/seadex_filter.py, from the torrents of an entry to the dictionary (`build`).
-- What the seadex package answers of a tracker is a parameter, as is the list of private trackers.
-- Planner: pearlarr/planner.py. Coverage groups the releases by the files they cover, Ownership says
-- whose copies the files on disk are, Match has the matcher of each kind of url and the group
-- verdicts, Reduce the reduction of releases that cover the same files, Plan puts them together.
-- The skip notices and the stale hold are part of the result, as in the source.
-- Probe: pearlarr/probe_verdicts.py. Queue, Commands and History each reduce one answer of Sonarr
-- to a verdict. Reading a time stamp is a parameter.
--
-- Imports: pearlarr/manual_import.py, with `placements_from_history` of pearlarr/probe_verdicts.py.
-- `Record` has PendingImport and its claims, where `__post_init__` is `folded_record`; `Stored` its
-- JSON form, a record of optional keys; `Outcomes` what a poll answers. NFC normalisation is a
-- parameter, as is the reading of a time stamp.
-- Episodes: pearlarr/episode_state.py. `Snapshot` judges the file of an episode by the trust policy
-- of its groups, `Statuses` puts the judgments of a file map together, `Routes` finds the claim and
-- the series that judge an episode.
-- Wait: pearlarr/import_wait.py and pearlarr/pending_records.py. `Records` has the store as maps,
-- which stand for the tables of pearlarr/cache.py. What qBittorrent, Sonarr and the clock answer in
-- a cycle is a record of functions (`Answers`, `Effects`), so the errors of those calls are among
-- the answers. `Clock` is the ready clock of a row, `Advance` one poll of a row, `Pass` the cycles
-- over the rows, `Runs` the heal, the observation, the tally and the pruning of the stored records.
-- A moment is a natural number of seconds. Of a row's frame it has what the pass reads again.
--
-- Sonarr: pearlarr/video_files.py, pearlarr/import_files.py and pearlarr/import_quality.py, which decide what
-- of the files on disk is imported, onto which episodes and at which quality, and pearlarr/sonarr_import.py:
-- `Payload` is what an import posts, `Execute` the manual import of one poll, `Seeds` the judgment of the record's
-- targets and `Reconcile` the poll of a completed download. What Sonarr
-- answers to each read and to the POST is a field of a record (`Executor`, `Reads`), none where the call failed.
-- Listings: pearlarr/coverage.py, whose text is built of runs of episodes, and pearlarr/listing_fold.py, which
-- folds the SeaDex entries of a series into one listing per torrent.
--
-- No definition runs on fuel: every loop of the modelled code is over a list and is a structural
-- recursion or a fold; the loop of the monitor is modelled by its cycle. Debug lines, with the fields
-- that only they read, are left out. Sizes, seasons and ids are natural numbers, which is what the
-- arr and SeaDex send.
--
-- Not modelled: the lenient parsing of JSON payloads, the prompt of the interactive pick, the
-- scans and rescans that Sonarr runs, the placement of files on episodes, the SQL of the cache,
-- the clients and the output.
mod Base
pub mod Text
pub mod Releases
pub mod Filter
pub mod Planner
pub mod Probe
pub mod Imports
pub mod Episodes
pub mod Wait
pub mod Sonarr
pub mod Listings
