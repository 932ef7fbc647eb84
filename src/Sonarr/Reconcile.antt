-- ===== src/Sonarr/Reconcile.antt =====
-- pearlarr/sonarr_import.py: one poll of a completed download (`ImportReconciler`). The index of the episodes of a
-- series (pearlarr/placement_types.py), the sibling records and the scans are answers, as are the command list and
-- the queue, none for a read that failed. Debug lines are left out.
use pearlarr.Base.{
  ℕ, Bool, true, false, not, ◌&&◌, ◌||◌, Option, none, some, List, [], ◌>>=◌, if◌then◌else◌, Dict,
  is_empty, map, nat_eq,
}
use pearlarr.Text.{Text}
use pearlarr.Releases.{SonarrEpisode}
use pearlarr.Probe.Commands.{
  ContentPaths, CommandResource, CommandBlock, import_running, not_deferred, rescanned_since_add,
}
use pearlarr.Probe.Queue.{
  QueueRecord, QueueVerdict, wait, importing, pending_clean, not_in_queue, classify_queue,
}
use pearlarr.Imports.Record.{OwnGroup, PendingImport, series_ids, target_ids, seed_coverage}
use pearlarr.Imports.Outcomes.{
  AttemptKind, poll, deadline, ImportProbe, imported_probe, waiting_probe, waiting, ImportProgress,
  no_progress,
}
use pearlarr.Episodes.Statuses.{all_done}
use pearlarr.Sonarr.Payload.{CandidateScan, Executor}
use pearlarr.Sonarr.Execute.{command_block, run_manual_import}
use pearlarr.Sonarr.Seeds.{SeedStatuses, with_counts, read_all, seed_from}

pub record SonarrView : Type 0 where
  pub verdict : QueueVerdict
  pub commands : List CommandResource
  pub untracked : Bool

abbrev pub is_wait : QueueVerdict → Bool
is_wait wait = true
is_wait _ = false

abbrev pub is_importing : QueueVerdict → Bool
is_importing importing = true
is_importing _ = false

abbrev pub is_pending_clean : QueueVerdict → Bool
is_pending_clean pending_clean = true
is_pending_clean _ = false

abbrev pub is_not_in_queue : QueueVerdict → Bool
is_not_in_queue not_in_queue = true
is_not_in_queue _ = false

-- `needs_rescan`
unfoldable pub needs_rescan : SonarrView → Bool
needs_rescan view = (is_wait view.verdict || is_not_in_queue view.verdict) && not view.untracked

abbrev pub is_deadline : AttemptKind → Bool
is_deadline deadline = true
is_deadline poll = false

pub record Poll : Type 0 where
  pub pending : PendingImport
  pub at_deadline : Bool
  pub targets : List ℕ
  pub complete : Bool

-- `_Poll.of`
unfoldable pub poll_of : (Text → Text) → PendingImport → AttemptKind → Poll
poll_of nfc p attempt =
    let targets = target_ids p in
    let accounted = not (is_empty targets) && (seed_coverage nfc p).accounted in
    record {
      pending = p;
      at_deadline = is_deadline attempt;
      targets = if accounted then targets else [];
      complete = accounted && (seed_coverage nfc p).mapped;
    }

-- what the poll reads, in its order: the episodes, Sonarr, the scan, the command list behind it and the episodes
-- again. Sonarr's view of the content path, which a fallback scan may add, is read anew for each command list
pub record Reads : Type 0 where
  pub episodes : ℕ → Option (Dict ℕ SonarrEpisode)
  pub last_known : ℕ → Dict ℕ SonarrEpisode
  pub siblings : ℕ → List OwnGroup
  pub view : Option SonarrView
  pub view_paths : ContentPaths
  pub handles_completed : Bool
  pub kept_scan : Option CandidateScan
  pub fresh_scan : Bool → Option CandidateScan
  pub baseline : Option (List CommandResource)
  pub baseline_paths : ContentPaths
  pub episodes_again : ℕ → Option (Dict ℕ SonarrEpisode)

-- `_read_sonarr`
unfoldable pub read_sonarr :
    (Text → Option ℕ)
    → PendingImport
    → Option (List CommandResource)
    → Option (List QueueRecord)
    → Option SonarrView
read_sonarr parse p commands_read rows_read = do
  commands ← commands_read
  rows ← rows_read
  some (record {
    verdict = classify_queue rows;
    commands = commands;
    untracked =
        is_not_in_queue (classify_queue rows) && rescanned_since_add parse commands p.added_at;
  })

-- `_sonarr_view`, where the rescan is run or not and then read behind
unfoldable pub sonarr_view : Option SonarrView → Bool → Option SonarrView → Option SonarrView
sonarr_view none rescanned again = none
sonarr_view (some view) rescanned again =
    if needs_rescan view && rescanned then again else some view

module _ (nfc : Text → Text) (x : Executor) (reads : Reads) where
  -- `_read_seed`
  unfoldable pub read_seed :
      PendingImport → List ℕ → (ℕ → Option (Dict ℕ SonarrEpisode)) → Option SeedStatuses
  read_seed p targets read = do
    lists ← read_all read (series_ids p)
    some (seed_from p reads.siblings targets lists)

  -- `_last_known_seed`
  unfoldable pub last_known_seed : PendingImport → List ℕ → SeedStatuses
  last_known_seed p targets = seed_from p reads.siblings targets (
      map {A = ℕ} {B = ℕ × Dict ℕ SonarrEpisode} (λ sid. (sid, reads.last_known sid))
        (series_ids p))

  -- `_already_imported`, whether it answers
  unfoldable pub already_imported : Poll → SeedStatuses → Bool
  already_imported q seed = q.complete && all_done seed.statuses

  -- the tail of `_step_in`, past its reads
  unfoldable pub step_past :
      Poll → CandidateScan → List CommandResource → SeedStatuses → Option CommandBlock → ImportProbe
  step_past q scan baseline fresh (some block) = with_counts fresh (waiting block)
  step_past q scan baseline fresh none = with_counts fresh (
      run_manual_import x q.pending nfc (record {
        scan = scan;
        snapshot = fresh.snapshot;
        baseline = baseline;
        at_deadline = q.at_deadline;
      }))

  unfoldable pub step_read :
      Poll → CandidateScan → SeedStatuses → List CommandResource → Option SeedStatuses → ImportProbe
  step_read q scan seed baseline none = with_counts seed (waiting_probe false not_deferred)
  step_read q scan seed baseline (some fresh) =
      if already_imported q fresh
      then with_counts fresh imported_probe
      else step_past q scan baseline fresh (command_block x q.pending reads.baseline_paths baseline)

  -- `_step_in`
  unfoldable pub step_in_from :
      Poll → CandidateScan → SeedStatuses → Option (List CommandResource) → ImportProbe
  step_in_from q scan seed none = with_counts seed (waiting_probe false not_deferred)
  step_in_from q scan seed (some baseline) =
      step_read q scan seed baseline (read_seed q.pending q.targets reads.episodes_again)

  unfoldable pub scanned : Poll → SeedStatuses → Option CandidateScan → ImportProbe
  scanned q seed none = with_counts seed (waiting_probe false not_deferred)
  scanned q seed (some scan) = step_in_from q scan seed reads.baseline

  abbrev pub kept_or_fresh : Option CandidateScan → Bool → Option CandidateScan
  kept_or_fresh (some scan) untracked = some scan
  kept_or_fresh none untracked = reads.fresh_scan untracked

  unfoldable pub unblocked : Poll → SeedStatuses → SonarrView → Option CommandBlock → ImportProbe
  unblocked q seed view (some block) = with_counts seed (waiting block)
  unblocked q seed view none =
      if is_pending_clean view.verdict && not q.at_deadline && reads.handles_completed
      then with_counts seed (waiting_probe false not_deferred)
      else scanned q seed (
          kept_or_fresh (if is_not_in_queue view.verdict then none else reads.kept_scan)
            view.untracked)

  unfoldable pub viewed : Poll → SeedStatuses → Option SonarrView → ImportProbe
  viewed q seed none = with_counts seed (waiting_probe false not_deferred)
  viewed q seed (some view) =
      if is_wait view.verdict
      then with_counts seed (waiting_probe false not_deferred)
      else if is_importing view.verdict
      then with_counts seed (waiting_probe false import_running)
      else unblocked q seed view (command_block x q.pending reads.view_paths view.commands)

  unfoldable pub seeded : Poll → Option SeedStatuses → ImportProbe
  seeded q none = viewed q (last_known_seed q.pending q.targets) reads.view
  seeded q (some fresh) =
      if already_imported q fresh
      then with_counts fresh imported_probe
      else viewed q fresh reads.view

  -- `import_completed`
  unfoldable pub import_completed : PendingImport → AttemptKind → ImportProbe
  import_completed p attempt =
      let q = poll_of nfc p attempt in seeded q (read_seed p q.targets reads.episodes)

  abbrev pub progress_of : Option SeedStatuses → ImportProgress
  progress_of none = no_progress
  progress_of (some seed) = record {
    done_count = seed.done_count;
    total = seed.total;
    determinate = true;
  }

  -- `import_progress`
  unfoldable pub import_progress : PendingImport → ImportProgress
  import_progress p =
      if is_empty (target_ids p) || not (seed_coverage nfc p).mapped
      then no_progress
      else progress_of (read_seed p (target_ids p) reads.episodes)
