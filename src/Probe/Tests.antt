-- ===== src/Probe/Tests.antt =====
-- A queue, a command list and a history page of one download.
use pearlarr.Base.{ℕ, true, ◌≡◌, refl, none, some, is_some, List, [], ◌∷◌, nat_eq, list_eq, ◌==◌}
use pearlarr.Text.{Text, text, casefold}
use pearlarr.Probe.Queue.{QueueRecord, wait, classify_queue}
use pearlarr.Probe.Queue.Priority.{classify_queue-ranked}
use pearlarr.Probe.Commands.{
  CommandResource, DownloadMatch, manual_import_in_flight, classify_commands, file_hashes,
}
use pearlarr.Probe.Commands.Cover.{manual_import_in_flight-covers, classify_commands-clear}
use pearlarr.Probe.History.{HistoryRow, classify_rows, imported, dead_event}
use pearlarr.Probe.History.Cycle.{classify_rows-cycle, rows_of}

abbrev sample_queue : List QueueRecord
sample_queue =
    record { state = some (text "importPending"); status = some (text "warning") }
    ∷ record { state = some (text "Downloading"); status = none }
    ∷ []

classify_queue-ranked_example : classify_queue sample_queue ≡ wait
unfolding casefold
classify_queue-ranked_example = classify_queue-ranked sample_queue

abbrev sample_command : CommandResource
sample_command = record {
  id = 7;
  status = some (text "started");
  name = some (text "ManualImport");
  started = none;
  files = record { path = none; download_id = some (text "AA"); episode_ids = [] } ∷ [];
}

abbrev sample_match : DownloadMatch
sample_match = record {
  infohash = text "aa";
  content_paths = record { raw = text "/d"; sonarr_visible = text "/d" };
  target_ep_ids = 5 ∷ [];
}

manual_import_in_flight-covers_example :
    is_some (manual_import_in_flight (sample_command ∷ []) sample_match) ≡ true
unfolding casefold file_hashes
manual_import_in_flight-covers_example =
    manual_import_in_flight-covers (sample_command ∷ []) sample_match

classify_commands-clear_example :
    is_some (classify_commands (sample_command ∷ []) sample_match (λ id. id == 7)) ≡ true
unfolding casefold file_hashes
classify_commands-clear_example =
    classify_commands-clear (sample_command ∷ []) sample_match (λ id. id == 7)

abbrev history_row : Text → ℕ → HistoryRow
history_row event episode_id = record {
  event_type = event;
  date = text "2024";
  episode_id = episode_id;
  item_id = 3;
  dropped_path = some (text "/d/ep");
}

abbrev newest_row : HistoryRow
newest_row = history_row (text "downloadFolderImported") 5

classify_rows-cycle_example :
    classify_rows true (
      history_row (text "episodeFileDeleted") 0
      ∷ newest_row
      ∷ history_row (text "grabbed") 0
      ∷ newest_row
      ∷ [])
    ≡ record {
      dead_tracked = true;
      event = some imported;
      date = some (text "2024");
      import_rows = rows_of (newest_row ∷ []);
    }
unfolding casefold dead_event
classify_rows-cycle_example =
    classify_rows-cycle true (history_row (text "episodeFileDeleted") 0 ∷ []) newest_row []
      (history_row (text "grabbed") 0) (newest_row ∷ []) refl refl refl refl
