-- ===== src/Imports/Tests.antt =====
-- A pending record of two claims with its stored form and its history, where NFC leaves a name as it is.
use mathlib.Core.List.Memᴰ
use pearlarr.Base.{
  ℕ, true, false, not, ◌||◌, ◌≡◌, refl, ap, sym, ◌∙◌, inl, inr, unique, none, some, List, [], ◌∷◌,
  Memᴰ, Dict, get, get_else, contains, nat_eq, list_eq,
}
use pearlarr.Text.{Text, text, casefold, strip, strip_right}
use pearlarr.Planner.Types.{GuardFacts, no_guards}
use pearlarr.Probe.History.{HistoryImport}
use pearlarr.Imports.Maps.{normalized_names, normalized_map, map_step, normalized_keys}
use pearlarr.Imports.Names.{normalized_leaf, path_leaf}
use pearlarr.Releases.{unambiguous}
use pearlarr.Probe.Commands.{fold_path_separators}
use pearlarr.Imports.Record.{
  EntryClaim, PendingImport, folded_record, normalized_names_in_order, unplaced_names,
  seed_coverage, with_claim, admits,
}
use pearlarr.Imports.Stored.{to_json, hydrate_pending}
use pearlarr.Imports.Folded.{folded_record-partition, seed_coverage-unplaced}
use pearlarr.Imports.Placed.{places, places-placements_from_history, row_places}
use pearlarr.Imports.History.{placements_from_history}
use pearlarr.Imports.Roundtrip.{hydrate_pending-put}
use pearlarr.Imports.Claims.{entry_claim, entries, refreshed_claim, with_claim-joins}

abbrev as_is : Text → Text
as_is t = t

abbrev sample_guards : GuardFacts
sample_guards = record { entry_groups = text "grp" ∷ []; stale_groups = []; owned_episodes = [] }

abbrev claim_of_entry : ℕ → EntryClaim
claim_of_entry al_id = record {
  al_id = al_id;
  series_id = 3;
  title = some (text "Show");
  coverage = none;
  url = none;
  ordered_episode_ids = 11 ∷ 12 ∷ [];
  names = record { series = text "Show"; anilist = [] };
  preowned_episode_ids = 12 ∷ [];
  slice_coverage = none;
  claimed_at = text "2024";
  guards = sample_guards;
}

abbrev sample_record : PendingImport
sample_record = record {
  infohash = text "aa";
  release_group = text "grp";
  is_dual_audio = false;
  seadex_files = text "Show/01.mkv" ∷ text "Show/02.mkv" ∷ text "Show/nc.mkv" ∷ [];
  added_at = text "2024";
  file_episode_map = (text "01.mkv", 11 ∷ []) ∷ [];
  claims = claim_of_entry 7 ∷ [];
  excluded_files = text "nc.mkv" ∷ [];
  release_sizes = 5 ∷ [];
  awaiting_cleanup = true;
  sizes_by_name = (text "01.mkv", 5) ∷ [];
  hand_import_files = [];
}

abbrev sample_rows : Dict ℕ GuardFacts
sample_rows = (7, sample_guards) ∷ []

sample_record-folded : folded_record as_is sample_record ≡ sample_record
unfolding folded_record normalized_map normalized_names_in_order normalized_keys map_step
    normalized_names unambiguous normalized_leaf casefold strip path_leaf strip_right
    fold_path_separators
sample_record-folded = refl

sample_guards-read :
    (c : EntryClaim)
    → Memᴰ c sample_record.claims
    → get_else c.al_id no_guards sample_rows ≡ c.guards
sample_guards-read c m = elim (Memᴰ.cases_cons m) [
  | inl h ↦
      ap (λ (d : EntryClaim). get_else d.al_id no_guards sample_rows) h
      ∙ sym (ap (λ (d : EntryClaim). d.guards) h)
  | inr n ↦ absurd (Memᴰ.not-nil n)
]

hydrate_pending-put_example :
    get (text "aa") (hydrate_pending as_is ((text "aa", to_json sample_record) ∷ []) sample_rows)
    ≡ some sample_record
hydrate_pending-put_example =
    hydrate_pending-put as_is sample_rows [] sample_record (text "aa") sample_record-folded
      sample_guards-read

folded_record-partition_example :
    (contains (text "nc.mkv") (folded_record as_is sample_record).hand_import_files ≡ false)
    × (contains (text "nc.mkv") (folded_record as_is sample_record).excluded_files ≡ true)
unfolding folded_record normalized_map normalized_names_in_order normalized_keys map_step
    normalized_names unambiguous normalized_leaf casefold strip path_leaf strip_right
    fold_path_separators
folded_record-partition_example = folded_record-partition as_is sample_record (text "nc.mkv")

seed_coverage-unplaced_example :
    ((seed_coverage as_is sample_record).accounted ≡ false)
    × ((seed_coverage as_is sample_record).mapped ≡ false)
    × ((not (seed_coverage as_is sample_record).mapped
          || (seed_coverage as_is sample_record).accounted)
        ≡ true)
unfolding folded_record normalized_map normalized_names_in_order normalized_keys map_step
    normalized_names unambiguous normalized_leaf casefold strip path_leaf strip_right
    fold_path_separators unplaced_names
seed_coverage-unplaced_example = seed_coverage-unplaced as_is sample_record

abbrev sample_history : List HistoryImport
sample_history =
    record { path = text "/d/02.mkv"; episode_id = 12; series_id = 3 }
    ∷ record { path = text "/d/nc.mkv"; episode_id = 11; series_id = 3 }
    ∷ []

places-placements_from_history_example :
    places (placements_from_history as_is sample_history sample_record) (text "02.mkv") 12 ≡ true
unfolding folded_record normalized_map normalized_names_in_order normalized_keys map_step
    normalized_names unambiguous normalized_leaf casefold strip path_leaf strip_right
    fold_path_separators unplaced_names row_places admits
places-placements_from_history_example =
    places-placements_from_history as_is sample_record (text "02.mkv") 12 sample_history

abbrev newer_claim : EntryClaim
newer_claim = record (claim_of_entry 7) {
  claimed_at = text "2025";
  preowned_episode_ids = [];
  coverage = some (text "S2");
}

with_claim-joins_example :
    (entry_claim 7 (with_claim as_is newer_claim sample_record).claims
      ≡ some (record (claim_of_entry 7) { coverage = some (text "S2") }))
    × ((with_claim as_is newer_claim sample_record).awaiting_cleanup ≡ false)
    × (unique (entries (with_claim as_is newer_claim sample_record).claims) ≡ true)
unfolding entry_claim refreshed_claim entries
with_claim-joins_example = with_claim-joins as_is newer_claim sample_record 7 refl
