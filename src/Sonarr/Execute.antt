-- ===== src/Sonarr/Execute.antt =====
-- pearlarr/sonarr_import.py: the import of one poll (`ImportExecutor.run_manual_import`), with the look at the
-- command list before the POST. Warnings and debug lines are left out.
use pearlarr.Base.{
  ℕ, Bool, true, false, not, ◌&&◌, ◌||◌, Option, none, some, List, [], ◌==◌, if◌then◌else◌, Dict,
  values, distinct, sorted, is_empty, nat_eq, list_eq,
}
use pearlarr.Text.{Text, text}
use pearlarr.Probe.Commands.{
  ContentPaths, CommandResource, CommandBlock, just_restarted, disk_command_changed,
  classify_commands, sonarr_restarted, disk_commands_changed_since, not_deferred, issued,
}
use pearlarr.Imports.Maps.{FileEpisodeMap, joined_map}
use pearlarr.Imports.Record.{PendingImport, target_ids, resolved_ids, seed_coverage, concat_ids}
use pearlarr.Imports.Outcomes.{
  ImportProbe, imported_probe, waiting_probe, unmatched_probe, hand_import_probe, waiting,
}
use pearlarr.Imports.History.{placements_from_history}
use pearlarr.Episodes.Statuses.{all_done, filled_by_hand}
use pearlarr.Episodes.Routes.{map_statuses}
use pearlarr.Sonarr.Files.{
  CandidateFile, candidate_files, DiskLeftover, left_unmatched, disk_leftover, plan_import_files,
}
use pearlarr.Sonarr.Payload.{
  CandidateScan, omit_download_id, PollReading, ManualImportFile, Executor, leaves_of, Routed,
  route_decisions,
}

module _ (x : Executor) (p : PendingImport) where
  -- `command_block`
  unfoldable pub command_block : ContentPaths → List CommandResource → Option CommandBlock
  command_block content_paths commands =
      classify_commands commands
        (record {
          infohash = p.infohash;
          content_paths = content_paths;
          target_ep_ids = target_ids p;
        })
        x.is_own_command

  -- the block of a changed command list
  unfoldable pub changed_block :
      List CommandResource → List CommandResource → Option CommandBlock → Option CommandBlock
  changed_block baseline commands (some block) = some block
  changed_block baseline commands none =
      if sonarr_restarted commands
      then some just_restarted
      else if not (is_empty (disk_commands_changed_since baseline commands))
      then some disk_command_changed
      else none

  abbrev pub waits : Option CommandBlock → Option ImportProbe
  waits none = none
  waits (some block) = some (waiting block)

  unfoldable pub guard_commands :
      List CommandResource → Option (List CommandResource) → Option ImportProbe
  guard_commands baseline none = some (waiting_probe false not_deferred)
  guard_commands baseline (some commands) =
      waits (changed_block baseline commands (command_block x.content_paths commands))

  -- `_guard_before_post`
  unfoldable pub guard_before_post : PollReading → Option ImportProbe
  guard_before_post reading = guard_commands reading.baseline x.commands

  -- the probe of the POST's answer
  unfoldable pub posted : Option ℕ → ImportProbe
  posted none = waiting_probe false not_deferred
  posted (some cmd_id) = waiting_probe true issued

  -- the mode of the POST
  unfoldable pub posting_mode : CandidateScan → Text
  posting_mode scan =
      if omit_download_id scan && (x.import_mode == text "auto") then text "copy" else x.import_mode

  unfoldable pub post_files : PollReading → List ManualImportFile → Option ImportProbe → ImportProbe
  post_files reading files (some blocked) = blocked
  post_files reading files none = posted (x.execute files (posting_mode reading.scan))

  unfoldable pub post_routed : PollReading → Routed → ImportProbe
  post_routed reading routed =
      if is_empty routed.files
      then (if is_empty routed.missing && is_empty routed.unrouted
          then imported_probe
          else waiting_probe false not_deferred)
      else post_files reading routed.files (guard_before_post reading)

  -- `_verify_or_import`
  unfoldable pub verify_or_import :
      PollReading → Dict Text CandidateFile → FileEpisodeMap → ImportProbe
  verify_or_import reading by_basename authoritative =
      let targets = sorted (distinct (concat_ids (values authoritative))) in
      let statuses = map_statuses reading.snapshot targets authoritative in
      if all_done statuses
      then imported_probe
      else if is_empty authoritative
      then waiting_probe false not_deferred
      else post_routed reading
          (route_decisions x p reading (plan_import_files authoritative by_basename statuses))

  -- `_imported_by_hand`
  unfoldable pub imported_by_hand : PollReading → FileEpisodeMap → Bool
  imported_by_hand reading file_map =
      filled_by_hand (map_statuses reading.snapshot (resolved_ids p) file_map)

  -- the probe before the placements
  unfoldable pub import_probe :
      PollReading → Dict Text CandidateFile → FileEpisodeMap → DiskLeftover → ImportProbe
  import_probe reading by_basename authoritative leftover =
      let by_hand = imported_by_hand reading authoritative in
      let probe = verify_or_import reading by_basename authoritative in
      if not (is_empty leftover.names) && is_empty authoritative
      then (if by_hand
          then imported_probe
          else unmatched_probe (leaves_of by_basename (left_unmatched leftover)))
      else if probe.files_present && not (is_empty leftover.hand_import_files)
      then (if by_hand
          then imported_probe
          else hand_import_probe (leaves_of by_basename leftover.hand_import_files))
      else probe

  -- `run_manual_import`
  unfoldable pub run_manual_import : (Text → Text) → PollReading → ImportProbe
  run_manual_import nfc reading =
      let by_basename = candidate_files nfc reading.scan.candidates in
      let recovered =
        if not (is_empty reading.scan.import_rows) && not (seed_coverage nfc p).mapped
        then placements_from_history nfc reading.scan.import_rows p
        else [] in
      let authoritative = joined_map p.file_episode_map recovered in
      let probe =
        import_probe reading by_basename authoritative
          (disk_leftover nfc p by_basename authoritative) in
      record probe {
        placements =
            if probe.files_present || not (is_empty probe.hand_import_files) then recovered else [];
      }
