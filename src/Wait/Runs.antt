-- ===== src/Wait/Runs.antt =====
-- What a run does with its stored records outside the passes: the heal of the flagged ones, the
-- observation of those of a series, the tally and the pruning. The rows of a series are the store's
-- answer, an argument.
use pearlarr.Base.{
  ℕ, ◌+◌, Bool, true, false, not, ◌&&◌, Option, none, some, List, ◌++◌, if◌then◌else◌, Dict,
  get_else, put, keys, values, contains, select, fold, ltb, nat_eq, list_eq,
}
use pearlarr.Text.{Text}
use pearlarr.Imports.Record.{PendingImport, folded_record}
use pearlarr.Imports.Stored.{RawRecord, is_awaiting_cleanup, newest_claimed_at_of}
use pearlarr.Imports.Outcomes.{
  WaitOutcome, complete, deadline, PendingState, state_queued, state_downloaded, state_imported,
  state_missing, classify_pending, progress_complete, ready_path, ImportProbe,
}
use pearlarr.Wait.Clock.{is_issued}
use pearlarr.Wait.Records.{
  Store, save, drop_record, absorb_probe, hydrate, flagged_rows, active_rows,
}
use pearlarr.Wait.Cleanup.{retire}
use pearlarr.Wait.Advance.{Answers, is_missing}

abbrev pub is_complete : Option WaitOutcome → Bool
is_complete (some complete) = true
is_complete _ = false

abbrev pub is_state_imported : PendingState → Bool
is_state_imported state_imported = true
is_state_imported _ = false

abbrev pub is_state_missing : PendingState → Bool
is_state_missing state_missing = true
is_state_missing _ = false

abbrev pub is_state_downloaded : PendingState → Bool
is_state_downloaded state_downloaded = true
is_state_downloaded _ = false

abbrev pub is_state_queued : PendingState → Bool
is_state_queued state_queued = true
is_state_queued _ = false

-- `pending_states[key] = state`
unfoldable pub put_state : Text → PendingState → Store → Store
put_state key state s = record s { pending_states = put key state s.pending_states }

-- the flagged rows past those that this run kept
unfoldable pub healable_rows : Store → Dict Text RawRecord
healable_rows s = select (λ e. not (contains e.0 s.kept_keys)) (flagged_rows s)

module _ (nfc : Text → Text) (answers : Answers) where
  -- `_heal_one` after the import check
  unfoldable pub healed : ImportProbe → PendingImport → Store → Store
  healed probe p s =
      if probe.files_present
      then retire nfc answers.effects p s
      else if is_issued probe.deferral
      then put_state p.infohash state_downloaded
          (save (folded_record nfc (record p { awaiting_cleanup = false })) s)
      else s

  unfoldable pub heal_at : Option Text → PendingImport → Store → Store
  heal_at none p s = s
  heal_at (some path) p s =
      let probe = answers.attempt p path deadline in
      let absorbed = absorb_probe nfc p probe s in healed probe absorbed.1 absorbed.0

  unfoldable pub heal_one : PendingImport → Store → Store
  heal_one p s =
      let probe = answers.torrent p.infohash in
      if is_missing probe.outcome
      then retire nfc answers.effects p s
      else heal_at (ready_path probe) p s

  -- `heal_flagged`
  unfoldable pub heal_flagged : Store → Store
  heal_flagged s = fold (λ t p. heal_one p t) s (values (hydrate nfc (healable_rows s) s))

  unfoldable pub observed_state : PendingImport → PendingState
  observed_state p =
      let outcome = (answers.torrent p.infohash).outcome in
      classify_pending outcome (is_complete outcome && progress_complete (answers.progress p))

  -- `_observe_one`
  unfoldable pub observe_one : PendingImport → Store → Store
  observe_one p s =
      let state = observed_state p in
      put_state p.infohash state (
        if is_state_imported state
        then retire nfc answers.effects p s
        else if is_state_missing state
        then drop_record p.infohash s
        else s)

  -- `snapshot_pending_for_series`
  unfoldable pub snapshot_pending_for_series : List Text → Dict Text RawRecord → Store → Store
  snapshot_pending_for_series reacquired series_rows s =
      let reported = keys s.run_list ++ (reacquired ++ keys s.pending_states) in
      fold (λ t p. observe_one p t) s
        (values (
          hydrate nfc
            (select (λ e. not (contains e.0 reported) && not (is_awaiting_cleanup e.1)) series_rows)
            s))

pub record PendingStats : Type 0 where
  pub queued : ℕ
  pub downloaded : ℕ

unfoldable pub tally_state : PendingStats → PendingState → PendingStats
tally_state stats state =
    if is_state_downloaded state
    then record stats { downloaded = stats.downloaded + 1 }
    else if is_state_queued state
    then record stats { queued = stats.queued + 1 }
    else stats

-- `tally_carried_over_into_stats`
unfoldable pub tally_carried_over_into_stats : Store → PendingStats → PendingStats
tally_carried_over_into_stats s stats =
    fold (λ t key. tally_state t (get_else key state_queued s.pending_states)) stats
      (keys (active_rows s))

-- the stamp of a row against the cutoff
abbrev pub has_no_stamp : Option ℕ → Bool
has_no_stamp none = true
has_no_stamp (some t) = false

abbrev pub is_before : ℕ → Option ℕ → Bool
is_before cutoff none = false
is_before cutoff (some t) = ltb t cutoff

module _ (nfc : Text → Text) (parse : Text → Option ℕ) where
  -- `prune_expired_pending`
  unfoldable pub prune_expired_pending : ℕ → Store → Store
  prune_expired_pending cutoff s =
      let unstamped = select (λ e. has_no_stamp (newest_claimed_at_of parse e.1)) s.rows in
      let aged = select (λ e. is_before cutoff (newest_claimed_at_of parse e.1)) s.rows in
      let dropped = fold (λ t key. drop_record key t) s (keys unstamped) in
      fold (λ t (p : PendingImport). drop_record p.infohash t) dropped
        (values (hydrate nfc aged dropped))
