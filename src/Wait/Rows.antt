-- ===== src/Wait/Rows.antt =====
-- `_MonitorRow` and the frames of its view. Of a frame it has the fields that the pass reads again:
-- the telemetry, the fraction and the elapsed times are for the terminal alone and are left out. A
-- result row has the infohash where the program writes the display label.
use pearlarr.Base.{
  ℕ, Bool, true, false, not, ◌||◌, Option, none, some, List, [], if◌then◌else◌, ltb,
}
use pearlarr.Text.{Text}
use pearlarr.Probe.Commands.{Deferral, issued, import_running, busy, not_deferred}
use pearlarr.Imports.Record.{PendingImport}
use pearlarr.Imports.Outcomes.{
  Outcome, still_importing, sonarr_busy, not_ready, ImportProbe, ImportProgress,
}
use pearlarr.Wait.Clock.{ReadyClock}

pub data Phase : Type 0 where
  queued downloading importing terminal : Phase

unfoldable pub is_terminal : Phase → Bool
is_terminal terminal = true
is_terminal _ = false

unfoldable pub is_importing : Phase → Bool
is_importing importing = true
is_importing _ = false

unfoldable pub is_downloading : Phase → Bool
is_downloading downloading = true
is_downloading _ = false

pub record TerminalDetail : Type 0 where
  pub files : Option ℕ
  pub unmatched_files : List Text

abbrev pub no_detail : TerminalDetail
no_detail = record { files = none; unmatched_files = [] }

pub record MonitorRow : Type 0 where
  pub pending : PendingImport
  pub dl_start : ℕ
  pub carried_over : Bool
  pub clock : Option ReadyClock
  pub phase : Phase
  pub command_issued : Bool
  pub import_done : Option ℕ
  pub import_total : Option ℕ
  pub unmatched_files : List Text
  pub outcome : Option Outcome

-- a row as the pass builds it
abbrev pub new_row : ℕ → Bool → PendingImport → MonitorRow
new_row start carried_over p = record {
  pending = p;
  dl_start = start;
  carried_over = carried_over;
  clock = none;
  phase = queued;
  command_issued = false;
  import_done = none;
  import_total = none;
  unmatched_files = [];
  outcome = none;
}

-- `active`
unfoldable pub is_active : MonitorRow → Bool
is_active row = not (is_terminal row.phase)

unfoldable pub view_terminal : Outcome → TerminalDetail → MonitorRow → MonitorRow
view_terminal o detail row = record row {
  phase = terminal;
  outcome = some o;
  command_issued = false;
  import_done = detail.files;
  import_total = detail.files;
  unmatched_files = detail.unmatched_files;
}

unfoldable pub view_downloading : MonitorRow → MonitorRow
view_downloading row = record row {
  phase = downloading;
  outcome = none;
  command_issued = false;
  import_done = none;
  import_total = none;
  unmatched_files = [];
}

-- `... if total else None`
abbrev pub when_positive : ℕ → ℕ → Option ℕ
when_positive total n = if ltb 0 total then some n else none

unfoldable pub view_importing : ImportProbe → MonitorRow → MonitorRow
view_importing probe row = record row {
  phase = importing;
  outcome = none;
  command_issued = probe.command_issued;
  import_done = when_positive probe.target_count probe.imported_count;
  import_total = when_positive probe.target_count probe.target_count;
  unmatched_files = [];
}

unfoldable pub view_import_progress : ImportProgress → MonitorRow → MonitorRow
view_import_progress progress row = record row {
  import_done = some progress.done_count;
  import_total = some progress.total;
}

abbrev pub is_own_work : Deferral → Bool
is_own_work issued = true
is_own_work import_running = true
is_own_work busy = false
is_own_work not_deferred = false

abbrev pub is_busy : Deferral → Bool
is_busy busy = true
is_busy issued = false
is_busy import_running = false
is_busy not_deferred = false

-- `_exhausted_outcome`
unfoldable pub exhausted_outcome : ImportProbe → Outcome
exhausted_outcome probe =
    if probe.command_issued || is_own_work probe.deferral
    then still_importing
    else if is_busy probe.deferral
    then sonarr_busy
    else not_ready

pub record WaitOutcomeRow : Type 0 where
  pub infohash : Text
  pub outcome : Outcome
  pub carried_over : Bool
  pub unmatched_files : List Text
