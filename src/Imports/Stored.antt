-- ===== src/Imports/Stored.antt =====
-- The persisted form of a record: `to_json` and `from_json`. A stored dict is a record of its keys,
-- `none` for a key that is not there; `raw.get(key)` gives None for a missing key and for a null one.
use pearlarr.Base.{
  ℕ, max, Bool, false, Option, none, some, List, [], ◌∷◌, ◌++◌, Dict, get_else, keys, nat_eq,
  list_eq, map, map_values,
}
use pearlarr.Text.{Text}
use pearlarr.Planner.Types.{OwnedEpisode, GuardFacts, no_guards}
use pearlarr.Imports.Maps.{FileEpisodeMap}
use pearlarr.Imports.Record.{
  EntryNames, EntryClaim, PendingImport, without, normalized_names_in_order, folded_record,
}

-- `raw.get(key, fallback)`
abbrev pub or_else {ℓ} : {A : Type ℓ} → A → Option A → A
or_else a none = a
or_else a (some b) = b

pub record RawNames : Type 0 where
  pub series : Option Text
  pub anilist : Option (List Text)

pub record RawClaim : Type 0 where
  pub al_id : Option ℕ
  pub series_id : Option ℕ
  pub title : Option Text
  pub coverage : Option Text
  pub url : Option Text
  pub ordered_episode_ids : Option (List ℕ)
  pub names : Option RawNames
  pub preowned_episode_ids : Option (List ℕ)
  pub slice_coverage : Option Text
  pub claimed_at : Option Text

pub record RawRecord : Type 0 where
  pub infohash : Option Text
  pub release_group : Option Text
  pub is_dual_audio : Option Bool
  pub seadex_files : Option (List Text)
  pub added_at : Option Text
  pub file_episode_map : Option FileEpisodeMap
  pub claims : Option (List RawClaim)
  pub excluded_files : Option (List Text)
  pub release_sizes : Option (List ℕ)
  pub awaiting_cleanup : Option Bool
  pub sizes_by_name : Option (Dict Text ℕ)
  pub hand_import_files : Option (List Text)

-- the persisted guard row of an entry
pub record RawGuards : Type 0 where
  pub entry_groups : Option (List Text)
  pub stale_groups : Option (List Text)
  pub owned_episodes : Option (List (ℕ × ℕ))

-- `GuardFacts.from_json`
unfoldable pub guards_from_json : RawGuards → GuardFacts
guards_from_json raw = record {
  entry_groups = or_else [] raw.entry_groups;
  stale_groups = or_else [] raw.stale_groups;
  owned_episodes =
      map {A = ℕ × ℕ} {B = OwnedEpisode} (λ pair. record { ep_id = pair.0; size = pair.1 })
        (or_else [] raw.owned_episodes);
}

-- `EntryNames.to_json`, `EntryNames.from_json`
unfoldable pub names_to_json : EntryNames → RawNames
names_to_json n = record { series = some n.series; anilist = some n.anilist }

unfoldable pub names_from_json : RawNames → EntryNames
names_from_json raw = record { series = or_else [] raw.series; anilist = or_else [] raw.anilist }

abbrev no_names : RawNames
no_names = record { series = none; anilist = none }

-- `EntryClaim.to_json`, `EntryClaim.from_json`
unfoldable pub claim_to_json : EntryClaim → RawClaim
claim_to_json c = record {
  al_id = some c.al_id;
  series_id = some c.series_id;
  title = c.title;
  coverage = c.coverage;
  url = c.url;
  ordered_episode_ids = some c.ordered_episode_ids;
  names = some (names_to_json c.names);
  preowned_episode_ids = some c.preowned_episode_ids;
  slice_coverage = c.slice_coverage;
  claimed_at = some c.claimed_at;
}

unfoldable pub claim_from_json : Dict ℕ GuardFacts → RawClaim → EntryClaim
claim_from_json guards raw =
    let al_id = or_else 0 raw.al_id in
    record {
      al_id = al_id;
      series_id = or_else 0 raw.series_id;
      title = raw.title;
      coverage = raw.coverage;
      url = raw.url;
      ordered_episode_ids = or_else [] raw.ordered_episode_ids;
      names = names_from_json (or_else no_names raw.names);
      preowned_episode_ids = or_else [] raw.preowned_episode_ids;
      slice_coverage = raw.slice_coverage;
      claimed_at = or_else [] raw.claimed_at;
      guards = get_else al_id no_guards guards;
    }

unfoldable pub is_awaiting_cleanup : RawRecord → Bool
is_awaiting_cleanup raw = or_else false raw.awaiting_cleanup

unfoldable pub added_at_of : RawRecord → Text
added_at_of raw = or_else [] raw.added_at

-- `PendingImport.to_json`
unfoldable pub to_json : PendingImport → RawRecord
to_json p = record {
  infohash = some p.infohash;
  release_group = some p.release_group;
  is_dual_audio = some p.is_dual_audio;
  seadex_files = some p.seadex_files;
  added_at = some p.added_at;
  file_episode_map = some p.file_episode_map;
  claims = some (map claim_to_json p.claims);
  excluded_files = some p.excluded_files;
  release_sizes = some p.release_sizes;
  awaiting_cleanup = some p.awaiting_cleanup;
  sizes_by_name = some p.sizes_by_name;
  hand_import_files = some p.hand_import_files;
}

module _ (nfc : Text → Text) where
  -- `_unplaced_listed_files`
  unfoldable pub unplaced_listed_files : List Text → FileEpisodeMap → List Text → List Text
  unplaced_listed_files listed mapped excluded =
      without
        (normalized_names_in_order nfc (keys mapped) ++ normalized_names_in_order nfc excluded)
        (normalized_names_in_order nfc listed)

  -- `PendingImport.from_json`
  unfoldable pub from_json : Dict ℕ GuardFacts → RawRecord → PendingImport
  from_json guards raw =
      let seadex_files = or_else [] raw.seadex_files in
      let mapped = or_else [] raw.file_episode_map in
      let excluded = or_else [] raw.excluded_files in
      folded_record nfc (record {
        infohash = or_else [] raw.infohash;
        release_group = or_else [] raw.release_group;
        is_dual_audio = or_else false raw.is_dual_audio;
        seadex_files = seadex_files;
        added_at = added_at_of raw;
        file_episode_map = mapped;
        claims = map (claim_from_json guards) (or_else [] raw.claims);
        excluded_files = excluded;
        release_sizes = or_else [] raw.release_sizes;
        awaiting_cleanup = is_awaiting_cleanup raw;
        sizes_by_name = or_else [] raw.sizes_by_name;
        hand_import_files =
            or_else (unplaced_listed_files seadex_files mapped excluded) raw.hand_import_files;
      })

  unfoldable pub hydrate_pending : Dict Text RawRecord → Dict ℕ GuardFacts → Dict Text PendingImport
  hydrate_pending rows guards = map_values (from_json guards) rows

-- `newest_claimed_at_of`: a stamp is read by the parameter, as a number of seconds
abbrev pub newest : Option ℕ → Option ℕ → Option ℕ
newest none b = b
newest (some a) none = some a
newest (some a) (some b) = some (max a b)

unfoldable pub newest_stamp : (Text → Option ℕ) → List RawClaim → Option ℕ
newest_stamp parse [] = none
newest_stamp parse (c ∷ cs) = newest (parse (or_else [] c.claimed_at)) (newest_stamp parse cs)

unfoldable pub newest_claimed_at_of : (Text → Option ℕ) → RawRecord → Option ℕ
newest_claimed_at_of parse raw = newest_stamp parse (or_else [] raw.claims)
