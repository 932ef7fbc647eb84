-- ===== src/Wait/Graduate.antt =====
-- How the rows of a pass leave it: the deadlines of the monitor and the graduation of a check.
use pearlarr.Base.{
  ◌+◌, ◌*◌, ◌≤◌, ◌<◌, true, false, not, Option, none, some, ◌≡◌, refl, leb, is_some, if_ind, arith,
}
use pearlarr.Text.{Text}
use pearlarr.Imports.Outcomes.{
  AttemptKind, ImportProbe, TorrentProbe, ready_path, Outcome, download_timed_out,
}
use pearlarr.Wait.Clock.{ReadyClock, mark_poll}
use pearlarr.Wait.Cleanup.{Effects}
use pearlarr.Wait.Rows.{
  MonitorRow, TerminalDetail, no_detail, is_terminal, is_active, view_terminal,
}
use pearlarr.Wait.Advance.{
  Answers, PassSettings, is_monitor, Ledger, terminal_step, landed, polled_clock, attempt_kind,
  poll_verdict, apply_verdict, advance_download, advance_import, advance_complete, advance,
  is_missing, is_errored,
}
use pearlarr.Wait.Pass.{when_row}
use pearlarr.Wait.Stall.{Stalled, last_poll, Stalled-exhausted}

terminal_step-ends :
    (nfc : Text → Text) (e : Effects) (o : Outcome) (detail : TerminalDetail) (row : MonitorRow)
    (led : Ledger)
    → is_active (terminal_step nfc e o detail row led).0 ≡ false
unfolding terminal_step view_terminal is_active is_terminal
terminal_step-ends nfc e o detail row led = refl

poll_verdict_exhausted : (probe : ImportProbe) → is_some (poll_verdict probe true) ≡ true
unfolding poll_verdict
poll_verdict_exhausted probe = ground arith

apply_verdict-ends :
    (nfc : Text → Text) (e : Effects) (probe : ImportProbe) (v : Option (Outcome × TerminalDetail))
    (row : MonitorRow) (led : Ledger)
    → is_some v ≡ true
    → is_active (apply_verdict nfc e probe v row led).0 ≡ false
unfolding apply_verdict
apply_verdict-ends nfc e probe none row led h = absurd (cc)
apply_verdict-ends nfc e probe (some v) row led h = terminal_step-ends nfc e v.0 v.1 row led

-- The rows that are past the limits of the monitor: the download limit, and the stall bound with the
-- most credit that a deferral can give, with no further file in this poll.
pub record PastLimits (settings : PassSettings) (answers : Answers) (row : MonitorRow)
    : Type 0 where
  pub clock : ReadyClock
  pub clocked : row.clock ≡ some clock
  pub stalled : Stalled settings.import_timeout clock
  pub dl_late : row.dl_start + settings.dl_timeout ≤ answers.now row.pending.infohash
  pub late : clock.started + 7 * clock.timeout < last_poll clock
  pub ordered : last_poll clock ≤ answers.now row.pending.infohash
  pub lands_nothing :
      (path : Text) (kind : AttemptKind)
      → landed
          (answers.attempt row.pending path kind)
          (mark_poll (answers.now row.pending.infohash) clock)
        ≡ false

module _ (nfc : Text → Text) (settings : PassSettings) (answers : Answers)
    (monitors : is_monitor settings.kind ≡ true) (row : MonitorRow)
    (past : PastLimits settings answers row) (led : Ledger) where
  advance_download-ends :
      (probe : TorrentProbe)
      → is_active (advance_download nfc settings answers probe row led).0 ≡ false
  unfolding advance_download
  advance_download-ends probe =
      let due : leb (row.dl_start + settings.dl_timeout) (answers.now row.pending.infohash) ≡ true =
        ground (arith, past.dl_late) in
      rw (monitors, due)
        (terminal_step-ends nfc answers.effects download_timed_out no_detail row led)

  advance_import-ends :
      (path : Text) → is_active (advance_import nfc settings answers path row led).0 ≡ false
  unfolding advance_import polled_clock
  advance_import-ends path =
      let now = answers.now row.pending.infohash in
      let c = past.clock in
      let probe = answers.attempt row.pending path (attempt_kind now (mark_poll now c)) in
      let ends =
        Stalled-exhausted settings.import_timeout now probe past.stalled past.late past.ordered
          (past.lands_nothing path (attempt_kind now (mark_poll now c))) in
      rw (past.clocked) (
        apply_verdict-ends nfc answers.effects probe _ _ _ (rw ends (poll_verdict_exhausted probe)))

  advance_complete-ends :
      (path : Option Text)
      → is_active (advance_complete nfc settings answers path row led).0 ≡ false
  unfolding advance_complete
  advance_complete-ends none = terminal_step-ends nfc answers.effects _ no_detail row led
  advance_complete-ends (some path) = advance_import-ends path

  -- A row that is past the limits of the monitor ends, whatever qBittorrent and Sonarr answer.
  pub advance-ends : is_active (advance nfc settings answers row led).0 ≡ false
  unfolding advance
  advance-ends =
      let probe = answers.torrent row.pending.infohash in
      let ended : MonitorRow × Ledger → Type 0 = λ r. is_active r.0 ≡ false in
      if_ind ended (not (is_some probe.outcome)) (λ _. advance_download-ends probe)
        (λ _.
          if_ind ended (is_missing probe.outcome)
            (λ _. terminal_step-ends nfc answers.effects _ no_detail row led)
            (λ _.
              if_ind ended (is_errored probe.outcome)
                (λ _. terminal_step-ends nfc answers.effects _ no_detail row led)
                (λ _. advance_complete-ends (ready_path probe))))

-- A row that a pass does not pick, or that the step ends, is ended.
when_row-ends :
    (step : MonitorRow → Ledger → MonitorRow × Ledger) (row : MonitorRow) (led : Ledger)
    → is_active (step row led).0 ≡ false
    → is_active (when_row is_active step row led).0 ≡ false
unfolding when_row
when_row-ends step row led h =
    if_ind (λ (r : MonitorRow × Ledger). is_active r.0 ≡ false) (is_active row) (λ _. h) (λ k. k)
