-- ===== src/Wait/Pass.antt =====
-- `MonitorPass`: the rows of a pass, its cycles, and the graduation of what is left.
use pearlarr.Base.{
  ℕ, suc, Bool, not, ◌&&◌, Option, none, some, List, [], ◌∷◌, ◌++◌, ◌==◌, if◌then◌else◌, values,
  contains, ltb, is_empty, select, map, nat_eq, option_eq, list_eq,
}
use pearlarr.Text.{Text}
use pearlarr.Imports.Record.{PendingImport}
use pearlarr.Imports.Outcomes.{
  Outcome, imported, import_in_progress, awaiting_import, still_downloading, not_checked,
  ImportProgress, progress_complete,
}
use pearlarr.Wait.Clock.{ReadyClock, note_progress}
use pearlarr.Wait.Records.{Store, active_records}
use pearlarr.Wait.Rows.{
  MonitorRow, no_detail, new_row, is_active, is_importing, is_downloading, view_import_progress,
}
use pearlarr.Wait.Advance.{Answers, PassSettings, Ledger, terminal_step, advance}

-- a pass over the rows: each changes with what the rows before it left of the ledger
unfoldable pub over_rows :
    (MonitorRow → Ledger → MonitorRow × Ledger)
    → List MonitorRow
    → Ledger
    → List MonitorRow × Ledger
over_rows step [] led = ([], led)
over_rows step (row ∷ rows) led =
    let here = step row led in let rest = over_rows step rows here.1 in (here.0 ∷ rest.0, rest.1)

-- the step at the rows that the test picks
unfoldable pub when_row :
    (MonitorRow → Bool)
    → (MonitorRow → Ledger → MonitorRow × Ledger)
    → MonitorRow
    → Ledger
    → MonitorRow × Ledger
when_row test step row led = if test row then step row led else (row, led)

unfoldable pub active_count : List MonitorRow → ℕ
active_count [] = 0
active_count (row ∷ rows) = let rest = active_count rows in if is_active row then suc rest else rest

-- the outcome of a row that is left
unfoldable pub left_outcome : MonitorRow → Outcome
left_outcome row =
    if is_importing row.phase
    then (if row.command_issued then import_in_progress else awaiting_import)
    else if is_downloading row.phase
    then still_downloading
    else not_checked

abbrev pub has_bar : ImportProgress → Bool
has_bar p = p.determinate && ltb 0 p.total

abbrev pub is_refreshed : MonitorRow → Bool
is_refreshed row = is_active row && is_importing row.phase

-- the row with its clock's note of the progress
unfoldable pub noted_row : Answers → ReadyClock → MonitorRow → MonitorRow
noted_row answers clock row =
    let progress = answers.progress row.pending in
    record row {
      clock = some (
          note_progress progress.done_count progress.total
            (answers.progress_now row.pending.infohash) clock);
    }

module _ (nfc : Text → Text) (answers : Answers) where
  unfoldable pub retire_row : MonitorRow → Ledger → MonitorRow × Ledger
  retire_row row led = terminal_step nfc answers.effects (left_outcome row) no_detail row led

  -- `_retire_active`
  unfoldable pub retire_active : List MonitorRow → Ledger → List MonitorRow × Ledger
  retire_active = over_rows (when_row is_active retire_row)

  unfoldable pub refresh_clocked : ReadyClock → MonitorRow → Ledger → MonitorRow × Ledger
  refresh_clocked clock row led =
      let progress = answers.progress row.pending in
      let noted = noted_row answers clock row in
      if not (has_bar progress)
      then (row, led)
      else if progress_complete progress
      then terminal_step nfc answers.effects imported
          (record { files = some progress.total; unmatched_files = [] }) noted led
      else if row.import_done == some progress.done_count && row.import_total == some progress.total
      then (noted, led)
      else (view_import_progress progress noted, led)

  unfoldable pub refresh_at : Option ReadyClock → MonitorRow → Ledger → MonitorRow × Ledger
  refresh_at none row led = (row, led)
  refresh_at (some clock) row led = refresh_clocked clock row led

  unfoldable pub refresh_row : MonitorRow → Ledger → MonitorRow × Ledger
  refresh_row row led = refresh_at row.clock row led

  -- `refresh_progress`
  unfoldable pub refresh_progress : List MonitorRow → Ledger → List MonitorRow × Ledger
  refresh_progress = over_rows (when_row is_refreshed refresh_row)

module _ (nfc : Text → Text) (settings : PassSettings) where
  unfoldable pub run_cycle : Answers → List MonitorRow → Ledger → List MonitorRow × Ledger
  run_cycle answers = over_rows (when_row is_active (advance nfc settings answers))

  unfoldable pub run_check : Answers → List MonitorRow → Ledger → List MonitorRow × Ledger
  run_check answers rows led =
      let cycled = run_cycle answers rows led in
      let refreshed = refresh_progress nfc answers cycled.0 cycled.1 in
      retire_active nfc answers refreshed.0 refreshed.1

  -- the rows of a new pass, where `fresh` are the keys of the run list
  unfoldable pub rows_for : ℕ → List Text → List PendingImport → List MonitorRow
  rows_for start fresh records =
      map (λ (p : PendingImport). new_row start (not (contains p.infohash fresh)) p) records

  -- `_monitor_working_set`
  unfoldable pub monitor_working_set : Store → List PendingImport
  monitor_working_set s =
      select (λ (p : PendingImport). not (is_empty p.infohash)) (values s.run_list)
      ++ values (active_records nfc s)
