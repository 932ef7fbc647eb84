-- ===== src/Sonarr/Seeds.antt =====
-- pearlarr/sonarr_import.py: the seed of a poll (`_seed_from`), which judges the record's targets over the episodes of
-- its series. The index of the episodes of a series (pearlarr/placement_types.py) and the sibling records are answers.
use pearlarr.Base.{
  ℕ, ◌-◌, Option, some, List, [], ◌∷◌, ◌>>=◌, Dict, get_else, put, values, select, length, fold,
  nat_eq,
}
use pearlarr.Releases.{SonarrEpisode}
use pearlarr.Imports.Record.{OwnGroup, EntryClaim, PendingImport, own_group, guards_for}
use pearlarr.Imports.Outcomes.{ImportProbe}
use pearlarr.Episodes.Statuses.{TargetStatuses, is_recommended}
use pearlarr.Episodes.Snapshot.{GroupVotes, EpisodeSnapshot, guarded}
use pearlarr.Episodes.Routes.{RecordSnapshot, preowned, map_statuses}

pub record SeedStatuses : Type 0 where
  pub snapshot : RecordSnapshot
  pub statuses : TargetStatuses
  pub done_count : ℕ
  pub total : ℕ

-- `with_counts`
unfoldable pub with_counts : SeedStatuses → ImportProbe → ImportProbe
with_counts seed probe = record probe {
  imported_count = seed.done_count;
  target_count = seed.total;
}

-- the index of each series, none when a read fails
unfoldable pub read_all :
    (ℕ → Option (Dict ℕ SonarrEpisode)) → List ℕ → Option (Dict ℕ (Dict ℕ SonarrEpisode))
read_all read [] = some []
read_all read (series_id ∷ ids) = do
  index ← read series_id
  rest ← read_all read ids
  some ((series_id, index) ∷ rest)

-- the votes of a series: the record's own group and those of the records on it
abbrev pub votes_of : PendingImport → (ℕ → List OwnGroup) → ℕ → GroupVotes
votes_of p siblings series_id = record { own = own_group p; siblings = siblings series_id }

unfoldable pub snapshots_by_series :
    PendingImport → (ℕ → List OwnGroup) → Dict ℕ (Dict ℕ SonarrEpisode) → Dict ℕ EpisodeSnapshot
snapshots_by_series p siblings [] = []
snapshots_by_series p siblings ((series_id, index) ∷ lists) =
    (series_id, guarded index (guards_for p series_id) (votes_of p siblings series_id))
    ∷ snapshots_by_series p siblings lists

unfoldable pub add_claim :
    PendingImport
    → (ℕ → List OwnGroup)
    → Dict ℕ (Dict ℕ SonarrEpisode)
    → Dict ℕ EpisodeSnapshot
    → EntryClaim
    → Dict ℕ EpisodeSnapshot
add_claim p siblings lists by_claim c =
    put c.al_id (guarded (get_else c.series_id [] lists) c.guards (votes_of p siblings c.series_id))
      by_claim

-- `_seed_from`
unfoldable pub seed_from :
    PendingImport → (ℕ → List OwnGroup) → List ℕ → Dict ℕ (Dict ℕ SonarrEpisode) → SeedStatuses
seed_from p siblings targets lists =
    let snapshot : RecordSnapshot = record {
      pending = p;
      by_series = snapshots_by_series p siblings lists;
      by_claim = fold (add_claim p siblings lists) [] p.claims;
    } in
    let statuses = map_statuses snapshot targets p.file_episode_map in
    let owned = length (select (preowned snapshot) targets) in
    record {
      snapshot = snapshot;
      statuses = statuses;
      done_count = length (select is_recommended (values statuses.by_id)) - owned;
      total = length targets - owned;
    }
