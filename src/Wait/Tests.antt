-- ===== src/Wait/Tests.antt =====
-- One row of a pass: an import that Sonarr refuses for longer than its limits, one that verifies, and one whose
-- cleanup fails.
use pearlarr.Base.{
  ◌*◌, ◌≤◌, true, false, ◌≡◌, refl, ◌==◌, if◌then◌else◌, none, some, [], ◌∷◌, Memᴰ, keys, contains,
  length, ◌⊎◌, is_some, nat_eq, list_eq, arith,
}
use pearlarr.Text.{Text, text}
use pearlarr.Probe.Commands.{busy}
use pearlarr.Imports.Record.{PendingImport}
use pearlarr.Imports.Stored.{to_json}
use pearlarr.Imports.Outcomes.{
  ImportProbe, waiting_probe, TorrentProbe, complete, no_progress, done, failed, retry, Outcome,
  gone, drops,
}
use pearlarr.Wait.Clock.{ReadyClock, new_clock, mark_poll}
use pearlarr.Wait.Records.{Store, active_rows}
use pearlarr.Wait.Cleanup.{Effects, retire, retry_effect, is_retry, effect_backoff_s}
use pearlarr.Wait.Rows.{MonitorRow, new_row, is_active, is_terminal}
use pearlarr.Wait.Advance.{
  Answers, PassSettings, monitor, Ledger, settled_clock, advance, resolve_terminal,
}
use pearlarr.Wait.Pass.{active_count, run_check}
use pearlarr.Wait.Credit.{settled_clock-bounds}
use pearlarr.Wait.Account.{run_check-count}
use pearlarr.Wait.Kept.{stored, resolve_terminal-stored}
use pearlarr.Wait.Records.{drop_record}
use pearlarr.Wait.Retired.{retire-active_rows}
use pearlarr.Wait.Runs.{healable_rows, tally_carried_over_into_stats}
use pearlarr.Wait.Polls.{advance-keeps}
use pearlarr.Wait.Retries.{retry_effect-settles}
use mathlib.Core.List.Memᴰ

-- a poll at which Sonarr is busy
abbrev busy_probe : ImportProbe
busy_probe = waiting_probe false busy

-- a row polled at 100 and, ten timeouts later, at 200
abbrev first_clock : ReadyClock
first_clock = record (new_clock 10 100) { poll_at = some 100 }

abbrev second_clock : ReadyClock
second_clock = record first_clock {
  poll_gap = 100;
  poll_at = some 200;
  credited = 60;
  anchor = 160;
}

settled_clock-bounds_example :
    (let d = settled_clock 200 busy_probe (mark_poll 200 first_clock) in
      (d.timeout ≡ 10)
      × (d.started ≡ 100)
      × (0 ≤ d.credited)
      × (d.credited ≤ 6 * d.timeout)
      × (100 ≤ d.anchor)
      × (d.anchor ≤ 200))
settled_clock-bounds_example =
    settled_clock-bounds 200 busy_probe first_clock (omega arith) (omega arith)

abbrev sample_pending : PendingImport
sample_pending = record {
  infohash = text "aa";
  release_group = [];
  is_dual_audio = false;
  seadex_files = [];
  added_at = [];
  file_episode_map = [];
  claims = [];
  excluded_files = [];
  release_sizes = [];
  awaiting_cleanup = false;
  sizes_by_name = [];
  hand_import_files = [];
}

-- every effect fails for good
abbrev sample_effects : Effects
sample_effects = record {
  has_qbit = true;
  has_strategy = true;
  post_import = some (text "done");
  move_untracks = λ category. false;
  remove_from_queue = true;
  other_arr_holds = λ infohash. false;
  attempt_move = λ p n. failed;
  close_tracked = λ p n. failed;
}

abbrev complete_probe : TorrentProbe
complete_probe = record {
  outcome = some complete;
  content_path = some (text "/d");
  observed = true;
}

-- the answers of a cycle at 300, with this import probe
abbrev sample_answers : ImportProbe → Answers
sample_answers probe = record {
  now = λ infohash. 300;
  torrent = λ infohash. complete_probe;
  attempt = λ p path kind. probe;
  progress = λ p. no_progress;
  progress_now = λ infohash. 300;
  effects = sample_effects;
}

abbrev sample_settings : PassSettings
sample_settings = record { kind = monitor; dl_timeout = 50; import_timeout = 10 }

abbrev sample_row : MonitorRow
sample_row = record (new_row 100 true sample_pending) { clock = some second_clock }

abbrev sample_store : Store
sample_store = record {
  rows = (text "aa", to_json sample_pending) ∷ (text "bb", to_json sample_pending) ∷ [];
  guards = [];
  run_list = [];
  pending_states = [];
  is_sonarr = true;
  kept_keys = [];
}

abbrev sample_ledger : Ledger
sample_ledger = record { store = sample_store; results = [] }

abbrev as_is : Text → Text
as_is t = t

run_check-count_example :
    (let after =
        run_check as_is sample_settings
          (sample_answers busy_probe)
          (sample_row ∷ [])
          sample_ledger in
      (active_count after.0 ≡ 0) × (length after.1.results ≡ 1))
unfolding active_count is_active is_terminal
run_check-count_example =
    run_check-count as_is sample_settings (sample_answers busy_probe) (sample_row ∷ [])
      sample_ledger

resolve_terminal-stored_example :
    stored (text "aa") (resolve_terminal as_is sample_effects sample_pending gone true sample_store)
    ≡ none
unfolding drops
resolve_terminal-stored_example =
    resolve_terminal-stored as_is sample_effects (text "aa") sample_pending gone true sample_store

advance-keeps_example :
    (let after =
        advance as_is sample_settings (sample_answers busy_probe) sample_row sample_ledger in
      (is_some (stored (text "aa") after.1.store) ≡ true)
      ⊎ ((o : Outcome) × (after.0.outcome ≡ some o) × (drops o ≡ true)))
unfolding stored
advance-keeps_example =
    advance-keeps as_is sample_settings (sample_answers busy_probe) (text "aa") sample_row
      sample_ledger refl

retire-active_rows_example :
    (active_rows (retire as_is sample_effects sample_pending sample_store)
      ≡ active_rows (drop_record (text "aa") sample_store))
    × (tally_carried_over_into_stats
          (retire as_is sample_effects sample_pending sample_store)
          (record { queued = 0; downloaded = 0 })
        ≡ tally_carried_over_into_stats
            (drop_record (text "aa") sample_store)
            (record { queued = 0; downloaded = 0 }))
    × (contains
          (text "aa")
          (keys (active_rows (retire as_is sample_effects sample_pending sample_store)))
        ≡ false)
    × (contains
          (text "aa")
          (keys (healable_rows (retire as_is sample_effects sample_pending sample_store)))
        ≡ false)
retire-active_rows_example =
    retire-active_rows as_is sample_effects sample_pending sample_store
      (record { queued = 0; downloaded = 0 }) refl

retry_effect-settles_example :
    (retry_effect (λ n. if n == 1 then done else retry) 0 effect_backoff_s ≡ done)
    × (is_retry (retry_effect (λ n. if n == 1 then done else retry) 0 effect_backoff_s) ≡ false)
unfolding is_retry
retry_effect-settles_example = retry_effect-settles (λ n. if n == 1 then done else retry)
