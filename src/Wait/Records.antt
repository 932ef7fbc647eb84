-- ===== src/Wait/Records.antt =====
-- `PendingRecords`: the stored rows of one arr, their guard rows and the records of this run. The
-- cache store (pearlarr/cache.py) is the maps that its reads and writes are over.
use pearlarr.Base.{
  ℕ, Bool, not, List, ◌&&◌, [], ◌==◌, if◌then◌else◌, Dict, put, keys, contains, select, is_empty,
  nat_eq, list_eq, pair_eq,
}
use pearlarr.Text.{Text}
use pearlarr.Planner.Types.{GuardFacts}
use pearlarr.Imports.Record.{EntryClaim, PendingImport, with_placements}
use pearlarr.Imports.Stored.{RawRecord, to_json, hydrate_pending, is_awaiting_cleanup}
use pearlarr.Imports.Outcomes.{ImportProbe, PendingState}

pub record Store : Type 0 where
  pub rows : Dict Text RawRecord
  pub guards : Dict ℕ GuardFacts
  -- `RunContext.pending_imports`
  pub run_list : Dict Text PendingImport
  -- `RunContext.pending_states`
  pub pending_states : Dict Text PendingState
  pub is_sonarr : Bool
  -- `PostImportCleanup._kept_keys`
  pub kept_keys : List Text

-- the dict without the key
abbrev pub remove {ℓ} : {V : Type ℓ} → Text → Dict Text V → Dict Text V
remove key d = select (λ e. not (e.0 == key)) d

unfoldable pub flagged_rows : Store → Dict Text RawRecord
flagged_rows s = select (λ e. is_awaiting_cleanup e.1) s.rows

-- `active`
unfoldable pub active_rows : Store → Dict Text RawRecord
active_rows s =
    select (λ e. not (contains e.0 (keys s.run_list)) && not (is_awaiting_cleanup e.1)) s.rows

unfoldable pub put_record : PendingImport → Store → Store
put_record p s = record s { rows = put p.infohash (to_json p) s.rows }

unfoldable pub put_guards : EntryClaim → Store → Store
put_guards c s = if s.is_sonarr then record s { guards = put c.al_id c.guards s.guards } else s

unfoldable pub insert_fresh : PendingImport → EntryClaim → Store → Store
insert_fresh p c s =
    let written = put_guards c (put_record p s) in
    record written { run_list = put p.infohash p written.run_list }

unfoldable pub save : PendingImport → Store → Store
save p s =
    let written = put_record p s in
    if contains p.infohash (keys s.run_list)
    then record written { run_list = put p.infohash p written.run_list }
    else written

unfoldable pub save_with_claim : PendingImport → EntryClaim → Store → Store
save_with_claim p c s = put_guards c (save p s)

-- `drop`
unfoldable pub drop_record : Text → Store → Store
drop_record infohash s = record s {
  rows = remove infohash s.rows;
  run_list = remove infohash s.run_list;
}

module _ (nfc : Text → Text) where
  unfoldable pub hydrate : Dict Text RawRecord → Store → Dict Text PendingImport
  hydrate rows s = if is_empty rows then [] else hydrate_pending nfc rows s.guards

  unfoldable pub active_records : Store → Dict Text PendingImport
  active_records s = hydrate (active_rows s) s

  -- `absorb_probe`: a placement changes a record if and only if it changes the record's map
  unfoldable pub absorb_probe : PendingImport → ImportProbe → Store → Store × PendingImport
  absorb_probe p probe s =
      let healed = with_placements nfc probe.placements p in
      if healed.file_episode_map == p.file_episode_map then (s, p) else (save healed s, healed)
