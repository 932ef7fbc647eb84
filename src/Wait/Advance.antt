-- ===== src/Wait/Advance.antt =====
-- `ImportWaitManager.resolve_terminal`, `MonitorPass._terminal` and `MonitorPass._advance`. What
-- qBittorrent and Sonarr answer in a cycle is a record of functions, and so is the moment at which
-- the cycle reaches a row.
use pearlarr.Base.{
  ℕ, ◌+◌, Bool, true, false, not, ◌&&◌, Option, none, some, List, [], ◌∷◌, ◌++◌, if◌then◌else◌,
  is_some, is_empty, leb, put, list_eq, nat_eq,
}
use pearlarr.Text.{Text}
use pearlarr.Imports.Record.{PendingImport}
use pearlarr.Imports.Outcomes.{
  WaitOutcome, complete, errored, missing, AttemptKind, poll, deadline, PendingState, TorrentProbe,
  ready_path, ImportProbe, ImportProgress, deferred, Outcome, imported, gone, download_errored,
  download_timed_out, no_content_path, unmatched, partial, attempt_failed, drops,
  pending_state_for_outcome,
}
use pearlarr.Wait.Clock.{
  ReadyClock, new_clock, mark_poll, at_deadline, can_defer, credit_deferral, lands, note_progress,
}
use pearlarr.Wait.Records.{Store, drop_record, absorb_probe}
use pearlarr.Wait.Cleanup.{Effects, retire}
use pearlarr.Wait.Rows.{
  MonitorRow, TerminalDetail, no_detail, WaitOutcomeRow, view_terminal, view_downloading,
  view_importing, when_positive, exhausted_outcome,
}

pub record Answers : Type 0 where
  pub now : Text → ℕ
  pub torrent : Text → TorrentProbe
  pub attempt : PendingImport → Text → AttemptKind → ImportProbe
  pub progress : PendingImport → ImportProgress
  pub progress_now : Text → ℕ
  pub effects : Effects

pub data WaitKind : Type 0 where
  monitor check : WaitKind

abbrev pub is_monitor : WaitKind → Bool
is_monitor monitor = true
is_monitor check = false

-- the settings of a pass
pub record PassSettings : Type 0 where
  pub kind : WaitKind
  pub dl_timeout : ℕ
  pub import_timeout : ℕ

-- what the rows of a pass share
pub record Ledger : Type 0 where
  pub store : Store
  pub results : List WaitOutcomeRow

abbrev pub is_missing : Option WaitOutcome → Bool
is_missing (some missing) = true
is_missing (some complete) = false
is_missing (some errored) = false
is_missing none = false

abbrev pub is_errored : Option WaitOutcome → Bool
is_errored (some errored) = true
is_errored (some complete) = false
is_errored (some missing) = false
is_errored none = false

abbrev pub is_imported : Outcome → Bool
is_imported imported = true
is_imported _ = false

-- `pending_states[key] = state`, where the table has one
unfoldable pub put_pending_state : Text → Option PendingState → Store → Store
put_pending_state key none s = s
put_pending_state key (some state) s = record s { pending_states = put key state s.pending_states }

unfoldable pub note_pending_state : Text → Outcome → Store → Store
note_pending_state key outcome s = put_pending_state key (pending_state_for_outcome outcome) s

unfoldable pub resolve_terminal :
    (Text → Text) → Effects → PendingImport → Outcome → Bool → Store → Store
resolve_terminal nfc e p outcome carried_over s =
    if is_imported outcome
    then retire nfc e p s
    else if drops outcome
    then drop_record p.infohash s
    else if carried_over
    then note_pending_state p.infohash outcome s
    else s

-- `_terminal`
unfoldable pub terminal_step :
    (Text → Text) → Effects → Outcome → TerminalDetail → MonitorRow → Ledger → MonitorRow × Ledger
terminal_step nfc e o detail row led =
    let frozen = view_terminal o detail row in
    (
      frozen,
      record {
        store = resolve_terminal nfc e row.pending o row.carried_over led.store;
        results =
            led.results
            ++ record {
              infohash = row.pending.infohash;
              outcome = o;
              carried_over = row.carried_over;
              unmatched_files = frozen.unmatched_files;
            }
              ∷ [];
      },
    )

-- the clock of the row, stamped with this poll
unfoldable pub polled_clock : ℕ → ℕ → Option ReadyClock → ReadyClock
polled_clock timeout now none = mark_poll now (new_clock timeout now)
polled_clock timeout now (some c) = mark_poll now c

unfoldable pub attempt_kind : ℕ → ReadyClock → AttemptKind
attempt_kind now c = if at_deadline now c then deadline else poll

-- whether the poll found another file, by the stamped clock
unfoldable pub landed : ImportProbe → ReadyClock → Bool
landed probe c = lands probe.imported_count probe.target_count c

-- whether the poll pauses the clock
unfoldable pub pauses : ImportProbe → ReadyClock → Bool
pauses probe c = deferred probe && can_defer probe.deferral c

-- the clock after the probe's progress and deferral
unfoldable pub settled_clock : ℕ → ImportProbe → ReadyClock → ReadyClock
settled_clock now probe c =
    let noted = note_progress probe.imported_count probe.target_count now c in
    if pauses probe noted && not (landed probe c)
    then credit_deferral now probe.deferral noted
    else noted

-- whether the stall bound ends the wait at this poll
unfoldable pub is_exhausted : ℕ → ImportProbe → ReadyClock → Bool
is_exhausted now probe c =
    let noted = note_progress probe.imported_count probe.target_count now c in
    at_deadline now c && not (landed probe c) && not (pauses probe noted)

-- the outcome of a poll of a complete download; none while the wait goes on
unfoldable pub poll_verdict : ImportProbe → Bool → Option (Outcome × TerminalDetail)
poll_verdict probe exhausted =
    if probe.files_present
    then some (
      imported,
      record { files = when_positive probe.target_count probe.target_count; unmatched_files = [] },
    )
    else if not (is_empty probe.unmatched_files)
    then some (unmatched, record { files = none; unmatched_files = probe.unmatched_files })
    else if not (is_empty probe.hand_import_files)
    then some (partial, record { files = none; unmatched_files = probe.hand_import_files })
    else if exhausted
    then some (exhausted_outcome probe, no_detail)
    else if not probe.attempted
    then some (attempt_failed, no_detail)
    else none

unfoldable pub apply_verdict :
    (Text → Text)
    → Effects
    → ImportProbe
    → Option (Outcome × TerminalDetail)
    → MonitorRow
    → Ledger
    → MonitorRow × Ledger
apply_verdict nfc e probe none row led = (view_importing probe row, led)
apply_verdict nfc e probe (some (o, detail)) row led = terminal_step nfc e o detail row led

module _ (nfc : Text → Text) (settings : PassSettings) (answers : Answers) where
  -- `_advance` at no outcome
  unfoldable pub advance_download : TorrentProbe → MonitorRow → Ledger → MonitorRow × Ledger
  advance_download probe row led =
      if is_monitor settings.kind
        && leb (row.dl_start + settings.dl_timeout) (answers.now row.pending.infohash)
      then terminal_step nfc answers.effects download_timed_out no_detail row led
      else if not probe.observed
      then (row, led)
      else (view_downloading row, led)

  -- `_advance` at a complete download with its path
  unfoldable pub advance_import : Text → MonitorRow → Ledger → MonitorRow × Ledger
  advance_import path row led =
      let now = answers.now row.pending.infohash in
      let clock = polled_clock settings.import_timeout now row.clock in
      let probe = answers.attempt row.pending path (attempt_kind now clock) in
      let absorbed = absorb_probe nfc row.pending probe led.store in
      apply_verdict nfc answers.effects probe (poll_verdict probe (is_exhausted now probe clock))
        (record row { pending = absorbed.1; clock = some (settled_clock now probe clock) })
        (record led { store = absorbed.0 })

  unfoldable pub advance_complete : Option Text → MonitorRow → Ledger → MonitorRow × Ledger
  advance_complete none row led =
      terminal_step nfc answers.effects no_content_path no_detail row led
  advance_complete (some path) row led = advance_import path row led

  unfoldable pub advance : MonitorRow → Ledger → MonitorRow × Ledger
  advance row led =
      let probe = answers.torrent row.pending.infohash in
      if not (is_some probe.outcome)
      then advance_download probe row led
      else if is_missing probe.outcome
      then terminal_step nfc answers.effects gone no_detail row led
      else if is_errored probe.outcome
      then terminal_step nfc answers.effects download_errored no_detail row led
      else advance_complete (ready_path probe) row led
