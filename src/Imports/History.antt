-- ===== src/Imports/History.antt =====
-- `placements_from_history` of pearlarr/probe_verdicts.py.
use pearlarr.Base.{
  Bool, not, ◌&&◌, List, [], ◌∷◌, ◌==◌, if◌then◌else◌, modify, set_default, map_values, contains,
  distinct, sorted, any, nat_eq, list_eq, fold,
}
use pearlarr.Text.{Text}
use pearlarr.Probe.History.{HistoryImport}
use pearlarr.Imports.Names.{normalized_leaf}
use pearlarr.Imports.Maps.{FileEpisodeMap}
use pearlarr.Imports.Record.{PendingImport, admits, unplaced_names}

-- some claim on the row's series admits its episode
abbrev pub claimed : PendingImport → HistoryImport → Bool
claimed pending row =
    any (λ c. (c.series_id == row.series_id) && admits c row.episode_id) pending.claims

module _ (nfc : Text → Text) where
  -- one row of the loop, the ids of a name as a set
  unfoldable pub history_step : PendingImport → FileEpisodeMap → HistoryImport → FileEpisodeMap
  history_step pending grouped row =
      let name = normalized_leaf nfc row.path in
      if not (contains name (unplaced_names nfc pending))
      then grouped
      else if not (claimed pending row)
      then grouped
      else modify name (λ ids. row.episode_id ∷ ids) (set_default name [] grouped)

  unfoldable pub placements_from_history : List HistoryImport → PendingImport → FileEpisodeMap
  placements_from_history imports pending =
      map_values (λ ids. sorted (distinct ids)) (fold (history_step pending) [] imports)
