-- ===== src/Wait/Polls.antt =====
-- What one poll of a row does to the stored rows.
use pearlarr.Base.{
  ◌+◌, true, false, not, ◌&&◌, Option, none, some, ◌≡◌, refl, ap, ◌∙◌, ◌⊎◌, inl, inr, is_some, leb,
  ◌==◌, nat_eq, list_eq, pair_eq, if_ind, Bool-cases, arith,
}
use pearlarr.Text.{Text}
use pearlarr.Imports.Record.{PendingImport, folded_record, with_placements}
use pearlarr.Imports.Outcomes.{
  ImportProbe, TorrentProbe, ready_path, Outcome, drops, download_timed_out, imported, gone,
  download_errored, no_content_path,
}
use pearlarr.Wait.Records.{Store, absorb_probe}
use pearlarr.Wait.Rows.{MonitorRow, TerminalDetail, no_detail, view_terminal}
use pearlarr.Wait.Advance.{
  Answers, PassSettings, Ledger, is_imported, is_missing, is_errored, is_monitor, terminal_step,
  apply_verdict, advance_download, advance_import, advance_complete, advance,
}
use pearlarr.Wait.Kept.{stored, stored-save, resolve_terminal-stored}

imported-drops : (o : Outcome) → is_imported o ≡ true → drops o ≡ true
unfolding drops
imported-drops imported h = refl
imported-drops gone h = refl
imported-drops _ h = absurd (cc)

module _ (nfc : Text → Text) (settings : PassSettings) (answers : Answers) (k : Text) where
  -- what a poll of one row does to the row stored at another key, or at its own
  Leaves : PendingImport → Store → MonitorRow × Ledger → Type 0
  Leaves p s r =
      ((k == p.infohash) ≡ false → stored k r.1.store ≡ stored k s)
      × (is_some (stored k s) ≡ true
          → (is_some (stored k r.1.store) ≡ true)
            ⊎ ((o : Outcome) × (r.0.outcome ≡ some o) × (drops o ≡ true)))

  terminal_step-Leaves :
      (o : Outcome) (detail : TerminalDetail) (row : MonitorRow) (led : Ledger)
      → Leaves row.pending led.store (terminal_step nfc answers.effects o detail row led)
  unfolding terminal_step view_terminal Leaves
  terminal_step-Leaves o detail row led =
      let at_key =
        resolve_terminal-stored nfc answers.effects k row.pending o row.carried_over led.store in
      (
        (λ other. rw at_key (rw other refl)),
        (λ h. elim (Bool-cases (drops o)) [
          | inl d ↦ inr (o, refl, d)
          | inr d ↦ inl (rw at_key (ground (arith, h, d, imported-drops o)))
        ]),
      )

  -- a row that is left with its store as it was
  untouched :
      (p : PendingImport) (s : Store) (r : MonitorRow × Ledger)
      → stored k r.1.store ≡ stored k s
      → Leaves p s r
  unfolding Leaves
  untouched p s r same = ((λ _. same), (λ h. inl (rw same h)))

  advance_download-Leaves :
      (probe : TorrentProbe) (row : MonitorRow) (led : Ledger)
      → Leaves row.pending led.store (advance_download nfc settings answers probe row led)
  unfolding advance_download
  advance_download-Leaves probe row led =
      if_ind (Leaves row.pending led.store)
        (is_monitor settings.kind
          && leb (row.dl_start + settings.dl_timeout) (answers.now row.pending.infohash))
        (λ _. terminal_step-Leaves download_timed_out no_detail row led)
        (λ _.
          if_ind (Leaves row.pending led.store) (not probe.observed)
            (λ _. untouched row.pending led.store _ refl)
            (λ _. untouched row.pending led.store _ refl))

  -- The placements of a probe change the record's own row alone, and do not remove it.
  absorb_probe-stored :
      (p : PendingImport) (probe : ImportProbe) (s : Store)
      → ((k == p.infohash) ≡ false → stored k (absorb_probe nfc p probe s).0 ≡ stored k s)
        × (is_some (stored k s) ≡ true → is_some (stored k (absorb_probe nfc p probe s).0) ≡ true)
        × ((absorb_probe nfc p probe s).1.infohash ≡ p.infohash)
  unfolding absorb_probe with_placements folded_record
  absorb_probe-stored p probe s =
      let healed = with_placements nfc probe.placements p in
      if_ind
        (λ (r : Store × PendingImport).
          ((k == p.infohash) ≡ false → stored k r.0 ≡ stored k s)
          × (is_some (stored k s) ≡ true → is_some (stored k r.0) ≡ true)
          × (r.1.infohash ≡ p.infohash))
        (healed.file_episode_map == p.file_episode_map) (λ _. ((λ _. refl), (λ h. h), refl))
        (λ _.
          let at_key = stored-save k healed s in
          ((λ other. rw at_key (rw other refl)), (λ h. rw at_key (ground (arith, h))), refl))

  apply_verdict-Leaves :
      (probe : ImportProbe) (v : Option (Outcome × TerminalDetail)) (row : MonitorRow)
      (led : Ledger)
      → Leaves row.pending led.store (apply_verdict nfc answers.effects probe v row led)
  unfolding apply_verdict
  apply_verdict-Leaves probe none row led = untouched row.pending led.store _ refl
  apply_verdict-Leaves probe (some v) row led = terminal_step-Leaves v.0 v.1 row led

  absorbed-Leaves :
      (p : PendingImport) (probe : ImportProbe) (s : Store) (r : MonitorRow × Ledger)
      → Leaves (absorb_probe nfc p probe s).1 (absorb_probe nfc p probe s).0 r
      → Leaves p s r
  unfolding Leaves
  absorbed-Leaves p probe s r (others, own) =
      let (others', own', same) = absorb_probe-stored p probe s in
      ((λ other. others (ap (λ j. k == j) same ∙ other) ∙ others' other), (λ h. own (own' h)))

  advance_complete-Leaves :
      (path : Option Text) (row : MonitorRow) (led : Ledger)
      → Leaves row.pending led.store (advance_complete nfc settings answers path row led)
  unfolding advance_complete advance_import
  advance_complete-Leaves none row led = terminal_step-Leaves no_content_path no_detail row led
  advance_complete-Leaves (some path) row led =
      absorbed-Leaves row.pending _ led.store _ (apply_verdict-Leaves _ _ _ _)

  advance-Leaves :
      (row : MonitorRow) (led : Ledger)
      → Leaves row.pending led.store (advance nfc settings answers row led)
  unfolding advance
  advance-Leaves row led =
      let probe = answers.torrent row.pending.infohash in
      if_ind (Leaves row.pending led.store) (not (is_some probe.outcome))
        (λ _. advance_download-Leaves probe row led)
        (λ _.
          if_ind (Leaves row.pending led.store) (is_missing probe.outcome)
            (λ _. terminal_step-Leaves gone no_detail row led)
            (λ _.
              if_ind (Leaves row.pending led.store) (is_errored probe.outcome)
                (λ _. terminal_step-Leaves download_errored no_detail row led)
                (λ _. advance_complete-Leaves (ready_path probe) row led)))

  -- One poll of a row leaves the stored rows of the other records as they are.
  pub advance-frame :
      (row : MonitorRow) (led : Ledger)
      → (k == row.pending.infohash) ≡ false
      → stored k (advance nfc settings answers row led).1.store ≡ stored k led.store
  unfolding Leaves
  advance-frame row led = (advance-Leaves row led).0

  -- A record that is stored is still stored after a poll of any row, unless the row ended with one of the outcomes that
  -- drop a record, which are imported and gone.
  pub advance-keeps :
      (row : MonitorRow) (led : Ledger)
      → is_some (stored k led.store) ≡ true
      → (let after = advance nfc settings answers row led in
          (is_some (stored k after.1.store) ≡ true)
          ⊎ ((o : Outcome) × (after.0.outcome ≡ some o) × (drops o ≡ true)))
  unfolding Leaves
  advance-keeps row led = (advance-Leaves row led).1
