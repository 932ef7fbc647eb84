-- ===== src/Imports/Outcomes.antt =====
-- What a poll of a torrent and of its import answers, and the outcomes of a wait pass. The words and
-- glyphs of an outcome and the live telemetry of a torrent are left out.
use pearlarr.Base.{
  ℕ, Bool, true, false, ◌&&◌, Option, none, some, List, [], leb, ltb, if◌then◌else◌, is_empty,
}
use pearlarr.Text.{Text}
use pearlarr.Probe.Commands.{
  Deferral, not_deferred, issued, import_running, busy, CommandBlock, claims_import, deferral,
}
use pearlarr.Imports.Maps.{FileEpisodeMap}

pub data WaitOutcome : Type 0 where
  complete errored missing : WaitOutcome

pub data AttemptKind : Type 0 where
  poll deadline : AttemptKind

pub data EffectStatus : Type 0 where
  done skipped retry failed : EffectStatus

pub data PendingState : Type 0 where
  state_queued state_downloaded state_imported state_errored state_missing : PendingState

unfoldable pub classify_pending : Option WaitOutcome → Bool → PendingState
classify_pending (some missing) files_present = state_missing
classify_pending (some errored) files_present = state_errored
classify_pending none files_present = state_queued
classify_pending (some complete) files_present =
    if files_present then state_imported else state_downloaded

pub record ImportProbe : Type 0 where
  pub files_present : Bool
  pub command_issued : Bool
  pub attempted : Bool
  pub imported_count : ℕ
  pub target_count : ℕ
  pub deferral : Deferral
  pub placements : FileEpisodeMap
  pub unmatched_files : List Text
  pub hand_import_files : List Text

-- `ImportProbe.deferred`
unfoldable pub deferred : ImportProbe → Bool
deferred p = elim p.deferral as (λ _. Bool) [
  | not_deferred ↦ false
  | issued ↦ true
  | import_running ↦ true
  | busy ↦ true
]

-- a probe with the fields' defaults
abbrev pub plain_probe : ImportProbe
plain_probe = record {
  files_present = false;
  command_issued = false;
  attempted = true;
  imported_count = 0;
  target_count = 0;
  deferral = not_deferred;
  placements = [];
  unmatched_files = [];
  hand_import_files = [];
}

-- `imported`, `waiting`, `unmatched`, `hand_import` and LEAVE_PROBE
abbrev pub imported_probe : ImportProbe
imported_probe = record plain_probe { files_present = true }

abbrev pub waiting_probe : Bool → Deferral → ImportProbe
waiting_probe command_issued reason = record plain_probe {
  command_issued = command_issued;
  deferral = reason;
}

abbrev pub unmatched_probe : List Text → ImportProbe
unmatched_probe names = record plain_probe { unmatched_files = names }

abbrev pub hand_import_probe : List Text → ImportProbe
hand_import_probe names = record plain_probe { hand_import_files = names }

abbrev pub leave_probe : ImportProbe
leave_probe = record plain_probe { attempted = false }

-- `CommandBlock.waiting`
unfoldable pub waiting : CommandBlock → ImportProbe
waiting block = waiting_probe (claims_import block) (deferral block)

pub record ImportProgress : Type 0 where
  pub done_count : ℕ
  pub total : ℕ
  pub determinate : Bool

abbrev pub no_progress : ImportProgress
no_progress = record { done_count = 0; total = 0; determinate = false }

-- `ImportProgress.files_present`
unfoldable pub progress_complete : ImportProgress → Bool
progress_complete p = p.determinate && ltb 0 p.total && leb p.total p.done_count

pub data OutcomeCategory : Type 0 where
  category_success category_deferred category_failed category_pending : OutcomeCategory

pub data Outcome : Type 0 where
  imported gone download_errored download_timed_out no_content_path still_importing : Outcome
  sonarr_busy not_ready unmatched partial attempt_failed not_checked : Outcome
  import_in_progress awaiting_import still_downloading : Outcome

unfoldable pub category : Outcome → OutcomeCategory
category imported = category_success
category gone = category_failed
category download_errored = category_failed
category import_in_progress = category_pending
category awaiting_import = category_pending
category still_downloading = category_pending
category _ = category_deferred

-- `Outcome.dropped`
unfoldable pub drops : Outcome → Bool
drops imported = true
drops gone = true
drops _ = false

-- PENDING_STATE_FOR_OUTCOME, which has no entry for the dropped outcomes
unfoldable pub pending_state_for_outcome : Outcome → Option PendingState
pending_state_for_outcome imported = none
pending_state_for_outcome gone = none
pending_state_for_outcome still_downloading = some state_queued
pending_state_for_outcome download_timed_out = some state_queued
pending_state_for_outcome not_checked = some state_queued
pending_state_for_outcome download_errored = some state_errored
pending_state_for_outcome _ = some state_downloaded

-- one poll of qBittorrent
pub record TorrentProbe : Type 0 where
  pub outcome : Option WaitOutcome
  pub content_path : Option Text
  pub observed : Bool

-- `TorrentProbe.ready_path`
unfoldable pub ready_path : TorrentProbe → Option Text
ready_path t = elim t.outcome as (λ _. Option Text) [
  | none ↦ none
  | some complete ↦ elim t.content_path as (λ _. Option Text) [
    | none ↦ none
    | some path ↦ if is_empty path then none else some path
  ]
  | some errored ↦ none
  | some missing ↦ none
]
