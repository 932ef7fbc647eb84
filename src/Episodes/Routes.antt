-- ===== src/Episodes/Routes.antt =====
-- `RecordSnapshot`: which claim and which series judge an episode of a pending import.
use pearlarr.Base.{
  ℕ, Bool, ◌&&◌, Option, none, some, List, [], ◌∷◌, ◌==◌, if◌then◌else◌, Dict, get, put, keys,
  contains, is_empty, any, first, select, count, counter, nat_eq, map, fold,
}
use pearlarr.Imports.Maps.{FileEpisodeMap, sizes_by_episode}
use pearlarr.Imports.Record.{EntryClaim, PendingImport}
use pearlarr.Episodes.Statuses.{TargetJudgment, no_file, TargetStatuses, judged}
use pearlarr.Episodes.Snapshot.{EpisodeSnapshot, judge_episode}

pub record Route : Type 0 where
  pub claim : Option EntryClaim
  pub series_id : Option ℕ

abbrev pub unscoped : EntryClaim → Bool
unscoped c = is_empty c.ordered_episode_ids

-- the series of the unscoped claims, one for each
abbrev pub unscoped_series : List EntryClaim → List ℕ
unscoped_series claims = map (λ (c : EntryClaim). c.series_id) (select unscoped claims)

unfoldable pub lone_unscoped_claims : List EntryClaim → Dict ℕ EntryClaim
lone_unscoped_claims claims =
    fold (λ d c. put c.series_id c d) []
      (select (λ c. unscoped c && (count c.series_id (counter (unscoped_series claims)) == 1))
        claims)

pub record RecordSnapshot : Type 0 where
  pub pending : PendingImport
  pub by_series : Dict ℕ EpisodeSnapshot
  pub by_claim : Dict ℕ EpisodeSnapshot

unfoldable pub holding_series : ℕ → Dict ℕ EpisodeSnapshot → Option ℕ
holding_series ep_id [] = none
holding_series ep_id ((sid, snapshot) ∷ d) =
    let rest = holding_series ep_id d in
    if contains ep_id (keys snapshot.episodes) then some sid else rest

module _ (s : RecordSnapshot) where
  abbrev pub series_of : ℕ → Option ℕ
  series_of ep_id = holding_series ep_id s.by_series

  -- the tail of `route`, without a scoped claim
  unfoldable pub route_by_series : Option ℕ → Route
  route_by_series none = record { claim = none; series_id = none }
  route_by_series (some sid) = record {
    claim = get sid (lone_unscoped_claims s.pending.claims);
    series_id = some sid;
  }

  unfoldable pub route_from : Option EntryClaim → Option ℕ → Route
  route_from (some claim) held = record { claim = some claim; series_id = some claim.series_id }
  route_from none held = route_by_series held

  unfoldable pub route : ℕ → Route
  route ep_id =
      route_from (first (λ (c : EntryClaim). contains ep_id c.ordered_episode_ids) s.pending.claims)
        (series_of ep_id)

  -- the snapshot of the claim, if there is one
  abbrev pub claim_snapshot : Option EntryClaim → Option EpisodeSnapshot
  claim_snapshot none = none
  claim_snapshot (some c) = get c.al_id s.by_claim

  abbrev pub series_snapshot : Option ℕ → Option EpisodeSnapshot
  series_snapshot none = none
  series_snapshot (some sid) = get sid s.by_series

  unfoldable pub snapshot_for : ℕ → Option EpisodeSnapshot
  snapshot_for ep_id = elim (claim_snapshot (route ep_id).claim) [
    | some own ↦ some own
    | none ↦ series_snapshot (route ep_id).series_id
  ]

  unfoldable pub preowned : ℕ → Bool
  preowned ep_id = elim (route ep_id).claim [
    | some claim ↦ contains ep_id claim.preowned_episode_ids
    | none ↦ any (λ (c : EntryClaim). contains ep_id c.preowned_episode_ids) s.pending.claims
  ]

  unfoldable pub judge_target : ℕ → Option ℕ → TargetJudgment
  judge_target ep_id intended_size = elim (snapshot_for ep_id) [
    | none ↦ no_file
    | some snapshot ↦ judge_episode snapshot ep_id intended_size
  ]

  unfoldable pub map_statuses : List ℕ → FileEpisodeMap → TargetStatuses
  map_statuses target_ep_ids file_map =
      judged target_ep_ids (sizes_by_episode file_map s.pending.sizes_by_name) judge_target
