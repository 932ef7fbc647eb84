-- ===== src/Imports/Record.antt =====
-- `PendingImport` and the claims of its entries. `__post_init__` is `folded_record`; `replace` is a
-- change of fields and that fold again. A record that a change left equal is returned as it is, which
-- in values is no difference. The `LookupError` of `claim_for` is `none`.
use pearlarr.Base.{
  ℕ, Bool, true, false, not, ◌||◌, Option, List, [], ◌∷◌, ◌++◌, ◌==◌, if◌then◌else◌, Dict, keys,
  values, contains, subset, sorted, fromkeys, select, first, is_empty, nat_eq, list_eq, map,
}
use pearlarr.Text.{Text}
use pearlarr.Releases.{SonarrEpisode}
use pearlarr.Planner.Types.{OwnedEpisode, GuardFacts}
use pearlarr.Imports.Maps.{
  FileEpisodeMap, joined_map, normalized_map, normalized_keys, normalized_names,
}

pub record OwnGroup : Type 0 where
  pub release_group : Text
  pub sizes : List ℕ

pub record EntryNames : Type 0 where
  pub series : Text
  pub anilist : List Text

pub record EntryWindow : Type 0 where
  pub al_id : ℕ
  pub series_id : ℕ
  pub ordered_episode_ids : List ℕ
  pub names : EntryNames
  pub ignored : Bool

abbrev pub nonzero_ids : List SonarrEpisode → List ℕ
nonzero_ids [] = []
nonzero_ids (ep ∷ eps) = let rest = nonzero_ids eps in if ep.id == 0 then rest else ep.id ∷ rest

-- `EntryWindow.of`
unfoldable pub window_of : ℕ → ℕ → List SonarrEpisode → EntryNames → Bool → EntryWindow
window_of al_id series_id ep_list names ignored = record {
  al_id = al_id;
  series_id = series_id;
  ordered_episode_ids = fromkeys (nonzero_ids ep_list);
  names = names;
  ignored = ignored;
}

pub record EntryClaim : Type 0 where
  pub al_id : ℕ
  pub series_id : ℕ
  pub title : Option Text
  pub coverage : Option Text
  pub url : Option Text
  pub ordered_episode_ids : List ℕ
  pub names : EntryNames
  pub preowned_episode_ids : List ℕ
  pub slice_coverage : Option Text
  pub claimed_at : Text
  pub guards : GuardFacts

unfoldable pub admits : EntryClaim → ℕ → Bool
admits c ep_id = is_empty c.ordered_episode_ids || contains ep_id c.ordered_episode_ids

-- `EntryClaim.window`
unfoldable pub claim_window : EntryClaim → EntryWindow
claim_window c = record {
  al_id = c.al_id;
  series_id = c.series_id;
  ordered_episode_ids = c.ordered_episode_ids;
  names = c.names;
  ignored = false;
}

pub record PendingImport : Type 0 where
  pub infohash : Text
  pub release_group : Text
  pub is_dual_audio : Bool
  pub seadex_files : List Text
  pub added_at : Text
  pub file_episode_map : FileEpisodeMap
  pub claims : List EntryClaim
  pub excluded_files : List Text
  pub release_sizes : List ℕ
  pub awaiting_cleanup : Bool
  pub sizes_by_name : Dict Text ℕ
  pub hand_import_files : List Text

-- the names that the set lacks, in order
abbrev pub without : List Text → List Text → List Text
without taken names = select (λ name. not (contains name taken)) names

module _ (nfc : Text → Text) where
  -- `_normalized_names_in_order`
  unfoldable pub normalized_names_in_order : List Text → List Text
  normalized_names_in_order names = fromkeys (normalized_names nfc names)

  -- `PendingImport.__post_init__`
  unfoldable pub folded_record : PendingImport → PendingImport
  folded_record p =
      let mapped = normalized_map nfc p.file_episode_map in
      let hand_import = without (keys mapped) (normalized_names_in_order p.hand_import_files) in
      record p {
        file_episode_map = mapped;
        excluded_files =
            without hand_import
              (without (keys mapped) (normalized_names_in_order p.excluded_files));
        hand_import_files = hand_import;
        sizes_by_name = normalized_keys nfc p.sizes_by_name;
      }

unfoldable pub own_group : PendingImport → OwnGroup
own_group p = record { release_group = p.release_group; sizes = p.release_sizes }

unfoldable pub series_ids : PendingImport → List ℕ
series_ids p = fromkeys (map (λ (c : EntryClaim). c.series_id) p.claims)

unfoldable pub claim_for : PendingImport → ℕ → Option EntryClaim
claim_for p series_id = first (λ c. c.series_id == series_id) p.claims

abbrev pub concat_ids : List (List ℕ) → List ℕ
concat_ids [] = []
concat_ids (ids ∷ rest) = ids ++ concat_ids rest

unfoldable pub target_ids : PendingImport → List ℕ
target_ids p = fromkeys (concat_ids (values p.file_episode_map))

-- the claims of one series
abbrev pub claims_on : ℕ → List EntryClaim → List EntryClaim
claims_on series_id claims = select (λ c. c.series_id == series_id) claims

abbrev pub concat_groups : (GuardFacts → List Text) → List EntryClaim → List Text
concat_groups f [] = []
concat_groups f (c ∷ cs) = f c.guards ++ concat_groups f cs

abbrev pub concat_owned : List EntryClaim → List OwnedEpisode
concat_owned [] = []
concat_owned (c ∷ cs) = c.guards.owned_episodes ++ concat_owned cs

unfoldable pub guards_for : PendingImport → ℕ → GuardFacts
guards_for p series_id =
    let claims = claims_on series_id p.claims in
    record {
      entry_groups = fromkeys (concat_groups (λ g. g.entry_groups) claims);
      stale_groups = fromkeys (concat_groups (λ g. g.stale_groups) claims);
      owned_episodes = concat_owned claims;
    }

pub record SeedCoverage : Type 0 where
  pub mapped : Bool
  pub accounted : Bool

-- the claims with the new one: in the place of the entry's stored claim, which keeps its clock and
-- its preowned ids, or behind all
unfoldable pub join_claim : EntryClaim → List EntryClaim → List EntryClaim
join_claim claim [] = claim ∷ []
join_claim claim (stored ∷ claims) =
    let rest = join_claim claim claims in
    if stored.al_id == claim.al_id
    then record claim {
      preowned_episode_ids = stored.preowned_episode_ids;
      claimed_at = stored.claimed_at;
    }
      ∷ claims
    else stored ∷ rest

module _ (nfc : Text → Text) where
  unfoldable pub seed_coverage : PendingImport → SeedCoverage
  seed_coverage p =
      let needed = normalized_names nfc p.seadex_files in
      let mapped_names = keys p.file_episode_map in
      if is_empty needed
      then record { mapped = false; accounted = false }
      else if subset needed mapped_names
      then record { mapped = true; accounted = true }
      else record { mapped = false; accounted = subset needed (mapped_names ++ p.excluded_files) }

  unfoldable pub unplaced_names : PendingImport → List Text
  unplaced_names p =
      without p.excluded_files
        (without (keys p.file_episode_map) (normalized_names nfc p.seadex_files))

  unfoldable pub with_placements : FileEpisodeMap → PendingImport → PendingImport
  with_placements placements p =
      folded_record nfc (record p { file_episode_map = joined_map p.file_episode_map placements })

  unfoldable pub with_exclusions : List Text → PendingImport → PendingImport
  with_exclusions names p =
      folded_record nfc (record p { excluded_files = p.excluded_files ++ names })

  unfoldable pub with_sizes_by_name : Dict Text ℕ → PendingImport → PendingImport
  with_sizes_by_name sizes p =
      folded_record nfc
        (record p { sizes_by_name = if is_empty p.sizes_by_name then sizes else p.sizes_by_name })

  unfoldable pub with_hand_import_files : List Text → PendingImport → PendingImport
  with_hand_import_files names p =
      folded_record nfc (record p { hand_import_files = p.hand_import_files ++ names })

  unfoldable pub with_claim : EntryClaim → PendingImport → PendingImport
  with_claim claim p =
      folded_record nfc (record p { claims = join_claim claim p.claims; awaiting_cleanup = false })

abbrev pub concat_windows : List EntryClaim → List ℕ
concat_windows [] = []
concat_windows (c ∷ cs) = c.ordered_episode_ids ++ concat_windows cs

unfoldable pub resolved_ids : PendingImport → List ℕ
resolved_ids p =
    let windows = fromkeys (concat_windows p.claims) in
    if is_empty windows then sorted (target_ids p) else windows
