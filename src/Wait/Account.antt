-- ===== src/Wait/Account.antt =====
-- The results of a pass against its rows.
use pearlarr.Base.{
  ℕ, suc, ◌+◌, Bool, true, not, ◌&&◌, Option, none, some, List, [], ◌∷◌, ◌++◌, ◌≡◌, refl, ap, inl,
  inr, is_some, leb, ◌==◌, nat_eq, option_eq, length, if◌then◌else◌, if_ind, Bool-cases, arith,
}
use pearlarr.Text.{Text}
use pearlarr.Imports.Outcomes.{
  ImportProbe, TorrentProbe, ready_path, Outcome, imported, download_timed_out, progress_complete,
}
use pearlarr.Wait.Clock.{ReadyClock}
use pearlarr.Wait.Cleanup.{Effects}
use pearlarr.Wait.Rows.{
  MonitorRow, TerminalDetail, no_detail, is_terminal, is_active, view_terminal, view_downloading,
  view_importing, view_import_progress,
}
use pearlarr.Wait.Advance.{
  Answers, PassSettings, Ledger, terminal_step, apply_verdict, advance_download, advance_import,
  advance_complete, advance, is_missing, is_errored, is_monitor,
}
use pearlarr.Wait.Pass.{
  over_rows, when_row, active_count, retire_row, retire_active, noted_row, has_bar, refresh_clocked,
  refresh_at, refresh_row, is_refreshed, refresh_progress, run_cycle, run_check,
}

length-snoc {ℓ} : {A : Type ℓ} (xs : List A) (x : A) → length (xs ++ x ∷ []) ≡ suc (length xs)
length-snoc [] x = refl
length-snoc (y ∷ xs) x = ap suc (length-snoc xs x)

-- A step from so many results ends the row and adds one, or leaves it active and adds none.
Counted : ℕ → MonitorRow × Ledger → Type 0
Counted n r = (if is_active r.0 then 1 else 0) + length r.1.results ≡ suc n

-- A step that does so at every active row.
Counts : (MonitorRow → Ledger → MonitorRow × Ledger) → Type 0
Counts step =
    (row : MonitorRow) (led : Ledger)
    → is_active row ≡ true
    → Counted (length led.results) (step row led)

left_active :
    (row : MonitorRow) (led : Ledger)
    → is_active row ≡ true
    → Counted (length led.results) (row, led)
unfolding Counted
left_active row led h = rw h (omega arith)

terminal_step-Counted :
    (nfc : Text → Text) (e : Effects) (o : Outcome) (detail : TerminalDetail) (row : MonitorRow)
    (led : Ledger)
    → Counted (length led.results) (terminal_step nfc e o detail row led)
unfolding terminal_step view_terminal is_active is_terminal Counted
terminal_step-Counted nfc e o detail row led = omega (arith, length-snoc led.results _)

module _ (nfc : Text → Text) (settings : PassSettings) (answers : Answers) where
  ended :
      (o : Outcome) (detail : TerminalDetail) (row : MonitorRow) (led : Ledger)
      → Counted (length led.results) (terminal_step nfc answers.effects o detail row led)
  ended o detail row led = terminal_step-Counted nfc answers.effects o detail row led

  advance_download-Counted :
      (probe : TorrentProbe) (row : MonitorRow) (led : Ledger)
      → is_active row ≡ true
      → Counted (length led.results) (advance_download nfc settings answers probe row led)
  unfolding advance_download view_downloading is_active is_terminal
  advance_download-Counted probe row led h =
      if_ind (Counted (length led.results))
        (is_monitor settings.kind
          && leb (row.dl_start + settings.dl_timeout) (answers.now row.pending.infohash))
        (λ _. ended download_timed_out no_detail row led)
        (λ _.
          if_ind (Counted (length led.results)) (not probe.observed) (λ _. left_active row led h)
            (λ _. left_active (view_downloading row) led refl))

  apply_verdict-Counted :
      (probe : ImportProbe) (v : Option (Outcome × TerminalDetail)) (row : MonitorRow)
      (led : Ledger)
      → Counted (length led.results) (apply_verdict nfc answers.effects probe v row led)
  unfolding apply_verdict view_importing is_active is_terminal
  apply_verdict-Counted probe none row led = left_active (view_importing probe row) led refl
  apply_verdict-Counted probe (some v) row led = ended v.0 v.1 row led

  advance_complete-Counted :
      (path : Option Text) (row : MonitorRow) (led : Ledger)
      → Counted (length led.results) (advance_complete nfc settings answers path row led)
  unfolding advance_complete advance_import
  advance_complete-Counted none row led = ended _ no_detail row led
  advance_complete-Counted (some path) row led = apply_verdict-Counted _ _ _ _

  advance-Counts : Counts (advance nfc settings answers)
  unfolding advance Counts
  advance-Counts row led h =
      let probe = answers.torrent row.pending.infohash in
      if_ind (Counted (length led.results)) (not (is_some probe.outcome))
        (λ _. advance_download-Counted probe row led h)
        (λ _.
          if_ind (Counted (length led.results)) (is_missing probe.outcome)
            (λ _. ended _ no_detail row led)
            (λ _.
              if_ind (Counted (length led.results)) (is_errored probe.outcome)
                (λ _. ended _ no_detail row led)
                (λ _. advance_complete-Counted (ready_path probe) row led)))

  refresh_clocked-Counted :
      (clock : ReadyClock) (row : MonitorRow) (led : Ledger)
      → is_active row ≡ true
      → Counted (length led.results) (refresh_clocked nfc answers clock row led)
  unfolding refresh_clocked noted_row view_import_progress is_active
  refresh_clocked-Counted clock row led h =
      let progress = answers.progress row.pending in
      let same_bar =
        row.import_done == some progress.done_count && row.import_total == some progress.total in
      let noted = noted_row answers clock row in
      if_ind (Counted (length led.results)) (not (has_bar progress)) (λ _. left_active row led h)
        (λ _.
          if_ind (Counted (length led.results)) (progress_complete progress)
            (λ _.
              ended imported (record { files = some progress.total; unmatched_files = [] }) noted
                led)
            (λ _.
              if_ind (Counted (length led.results)) same_bar (λ _. left_active noted led h)
                (λ _. left_active (view_import_progress progress noted) led h)))

  refresh_at-Counted :
      (clock : Option ReadyClock) (row : MonitorRow) (led : Ledger)
      → is_active row ≡ true
      → Counted (length led.results) (refresh_at nfc answers clock row led)
  unfolding refresh_at
  refresh_at-Counted none row led h = left_active row led h
  refresh_at-Counted (some clock) row led h = refresh_clocked-Counted clock row led h

  refresh_row-Counts : Counts (refresh_row nfc answers)
  unfolding refresh_row Counts
  refresh_row-Counts row led h = refresh_at-Counted row.clock row led h

  retire_row-Counts : Counts (retire_row nfc answers)
  unfolding retire_row Counts
  retire_row-Counts row led h = ended _ no_detail row led

-- Over the rows that a test picks among the active ones, such a step keeps the sum of the results and the
-- active rows.
over_rows-count :
    (test : MonitorRow → Bool) (step : MonitorRow → Ledger → MonitorRow × Ledger)
    → Counts step
    → ((row : MonitorRow) → test row ≡ true → is_active row ≡ true)
    → (rows : List MonitorRow) (led : Ledger)
    → (let after = over_rows (when_row test step) rows led in
        length after.1.results + active_count after.0 ≡ length led.results + active_count rows)
unfolding over_rows when_row active_count Counts Counted
over_rows-count test step counts active [] led = refl
over_rows-count test step counts active (row ∷ rows) led = elim (Bool-cases (test row)) [
  | inl t ↦
      let ih = over_rows-count test step counts active rows (step row led).1 in
      ground (arith, t, ih, active row t, counts row led (active row t))
  | inr t ↦ ground (arith, t, over_rows-count test step counts active rows led)
]

-- no row is left active by the graduation
retired_none :
    (nfc : Text → Text) (answers : Answers) (rows : List MonitorRow) (led : Ledger)
    → active_count (retire_active nfc answers rows led).0 ≡ 0
unfolding retire_active over_rows when_row active_count retire_row terminal_step view_terminal
    is_active is_terminal
retired_none nfc answers [] led = refl
retired_none nfc answers (row ∷ rows) led = elim (Bool-cases (is_active row)) [
  | inl t ↦ rw t (retired_none nfc answers rows (retire_row nfc answers row led).1)
  | inr t ↦ rw t (rw t (retired_none nfc answers rows led))
]

module _ (nfc : Text → Text) (settings : PassSettings) (answers : Answers) (rows : List MonitorRow)
    (led : Ledger) where
  -- A cycle of the monitor keeps the sum of the results and the active rows: a row that ends has one result
  -- more, and no row has a result twice.
  pub run_cycle-count :
      (let after = run_cycle nfc settings answers rows led in
        length after.1.results + active_count after.0 ≡ length led.results + active_count rows)
  unfolding run_cycle
  run_cycle-count =
      over_rows-count is_active (advance nfc settings answers) (advance-Counts nfc settings answers)
        (λ row h. h) rows led

  pub refresh_progress-count :
      (let after = refresh_progress nfc answers rows led in
        length after.1.results + active_count after.0 ≡ length led.results + active_count rows)
  unfolding refresh_progress
  refresh_progress-count =
      over_rows-count is_refreshed (refresh_row nfc answers)
        (refresh_row-Counts nfc settings answers) (λ row h. ground arith) rows led

  retire_active-count :
      (let after = retire_active nfc answers rows led in
        length after.1.results + active_count after.0 ≡ length led.results + active_count rows)
  unfolding retire_active
  retire_active-count =
      over_rows-count is_active (retire_row nfc answers) (retire_row-Counts nfc settings answers)
        (λ row h. h) rows led

-- The check leaves no active row, and adds exactly one result for each row that was active before it.
pub run_check-count :
    (nfc : Text → Text) (settings : PassSettings) (answers : Answers) (rows : List MonitorRow)
    (led : Ledger)
    → (let after = run_check nfc settings answers rows led in
        (active_count after.0 ≡ 0)
        × (length after.1.results ≡ length led.results + active_count rows))
unfolding run_check
run_check-count nfc settings answers rows led =
    let cycled = run_cycle nfc settings answers rows led in
    let refreshed = refresh_progress nfc answers cycled.0 cycled.1 in
    let none_left = retired_none nfc answers refreshed.0 refreshed.1 in
    (
      none_left,
      omega (
        arith,
        none_left,
        run_cycle-count nfc settings answers rows led,
        refresh_progress-count nfc settings answers cycled.0 cycled.1,
        retire_active-count nfc settings answers refreshed.0 refreshed.1,
      ),
    )
