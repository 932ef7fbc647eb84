-- ===== src/Sonarr/Posts.antt =====
-- A poll that posts one file: Sonarr no longer has the download in its queue, and its scan shows the file.
use pearlarr.Base.{is_empty, true, false, ◌≡◌, refl, none, some, List, [], ◌∷◌}
use pearlarr.Text.{text, casefold, strip, strip_right, lower}
use pearlarr.Probe.Commands.{
  CommandResource, sonarr_restarted, classify_commands, manual_import_in_flight, with_status,
  in_flight_disk_commands, fold_path_separators, completed_rescans, deferral,
  disk_commands_changed_since,
}
use pearlarr.Probe.Queue.{not_in_queue}
use pearlarr.Planner.Types.{no_guards}
use pearlarr.Imports.Record.{EntryClaim, PendingImport, series_ids, target_ids, seed_coverage}
use pearlarr.Imports.Outcomes.{poll, waiting}
use pearlarr.Sonarr.Quality.{no_axes}
use pearlarr.Sonarr.Payload.{
  Executor, route_decisions, route_decision, route_import, decision_series, posting_series,
}
use pearlarr.Sonarr.Execute.{
  command_block, run_manual_import, import_probe, verify_or_import, post_routed, post_files,
  guard_before_post, guard_commands, changed_block, posted,
}
use pearlarr.Sonarr.Seeds.{read_all, seed_from, add_claim, with_counts}
use pearlarr.Sonarr.Reconcile.{
  Reads, import_completed, seeded, read_seed, viewed, unblocked, scanned, step_in_from, step_read,
  poll_of, already_imported, step_past,
}
use pearlarr.Sonarr.Issued.{import_completed-issued}
use pearlarr.Imports.Maps.{normalized_names, joined_map}
use pearlarr.Imports.Names.{normalized_leaf, path_leaf}
use pearlarr.Episodes.Statuses.{all_done, judged, is_recommended, import_ids, needing_import}
use pearlarr.Episodes.Routes.{map_statuses, judge_target, snapshot_for, route, route_from}
use pearlarr.Episodes.Snapshot.{judge_episode, guarded}
use pearlarr.Sonarr.Files.{
  disk_leftover, video_names, candidate_files, add_candidate, plan_import_files, decide,
  decide_candidate, rejection_matches,
}
use pearlarr.Sonarr.Videos.{is_video_candidate, extension}

abbrev rescan : CommandResource
rescan = record {
  id = 5;
  status = some (text "completed");
  name = some (text "RefreshMonitoredDownloads");
  started = some 100;
  files = [];
}

abbrev posting_executor : Executor
posting_executor = record {
  commands = some (rescan ∷ []);
  is_own_command = λ _. false;
  content_paths = record { raw = text "/d"; sonarr_visible = text "/d" };
  import_mode = text "auto";
  languages = [];
  quality_defs = [];
  filename_quality = λ _. no_axes;
  default_quality = none;
  execute = λ _ _. some 40;
}

abbrev posted_claim : EntryClaim
posted_claim = record {
  al_id = 7;
  series_id = 3;
  title = none;
  coverage = none;
  url = none;
  ordered_episode_ids = 12 ∷ [];
  names = record { series = []; anilist = [] };
  preowned_episode_ids = [];
  slice_coverage = none;
  claimed_at = [];
  guards = no_guards;
}

abbrev posted_import : PendingImport
posted_import = record {
  infohash = text "aa";
  release_group = text "g";
  is_dual_audio = false;
  seadex_files = text "a.mkv" ∷ [];
  added_at = [];
  file_episode_map = (text "a.mkv", 12 ∷ []) ∷ [];
  claims = posted_claim ∷ [];
  excluded_files = [];
  release_sizes = [];
  awaiting_cleanup = false;
  sizes_by_name = [];
  hand_import_files = [];
}

abbrev posting_reads : Reads
posting_reads = record {
  episodes = λ _. none;
  last_known = λ _. [];
  siblings = λ _. [];
  view = some (record { verdict = not_in_queue; commands = rescan ∷ []; untracked = true });
  view_paths = record { raw = text "/d"; sonarr_visible = text "/d" };
  baseline_paths = record { raw = text "/d"; sonarr_visible = text "/d" };
  handles_completed = true;
  kept_scan = none;
  fresh_scan = λ by_id. some (record {
    candidates = record { path = some (text "/d/a.mkv"); quality = none; rejections = [] } ∷ [];
    history = none;
    import_rows = [];
    by_id = by_id;
  });
  baseline = some (rescan ∷ []);
  episodes_again = λ _. some [];
}

import_completed-issued_example :
    (before : List CommandResource) × (posting_reads.baseline ≡ some before)
    × ((cs : List CommandResource) × (posting_executor.commands ≡ some cs)
        × (command_block posting_executor posted_import posting_executor.content_paths cs ≡ none)
        × (sonarr_restarted cs ≡ false)
        × (is_empty (disk_commands_changed_since before cs) ≡ true))
unfolding import_completed seeded read_seed read_all series_ids viewed unblocked command_block
    classify_commands manual_import_in_flight with_status in_flight_disk_commands scanned
    step_in_from step_read poll_of already_imported target_ids seed_coverage normalized_names
    normalized_leaf casefold strip path_leaf strip_right fold_path_separators all_done seed_from
    map_statuses judged is_recommended judge_target snapshot_for route route_from add_claim
    judge_episode guarded step_past with_counts run_manual_import import_probe disk_leftover
    video_names candidate_files add_candidate is_video_candidate lower extension joined_map
    verify_or_import post_routed route_decisions plan_import_files route_decision decide
    decide_candidate rejection_matches import_ids needing_import route_import decision_series
    posting_series post_files guard_before_post guard_commands changed_block sonarr_restarted
    completed_rescans waiting deferral disk_commands_changed_since posted
import_completed-issued_example =
    import_completed-issued (λ s. s) posting_executor posting_reads posted_import poll refl
