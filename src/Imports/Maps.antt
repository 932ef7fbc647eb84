-- ===== src/Imports/Maps.antt =====
-- The maps between file names, episodes and sizes. A name is normalized by `normalized_leaf`.
use pearlarr.Base.{
  ℕ, not, none, some, List, [], ◌∷◌, ◌++◌, ◌==◌, if◌then◌else◌, Dict, get, keys, set_default,
  contains, select, is_empty, nat_eq, list_eq, map, fold,
}
use pearlarr.Text.{Text}
use pearlarr.Releases.{unambiguous}
use pearlarr.Imports.Names.{normalized_leaf}

-- `FileEpisodeMap`: a normalized name's episode ids
abbrev pub FileEpisodeMap : Type 0
FileEpisodeMap = Dict Text (List ℕ)

-- the (episode, size) pairs of one mapped name
abbrev pub sized_ids : Dict Text ℕ → Text × List ℕ → List (ℕ × ℕ)
sized_ids listed (name, ids) = elim (get name listed) [
  | none ↦ []
  | some size ↦ map (λ id. (id, size)) ids
]

abbrev pub sized_pairs : FileEpisodeMap → Dict Text ℕ → List (ℕ × ℕ)
sized_pairs [] listed = []
sized_pairs (e ∷ mapped) listed = sized_ids listed e ++ sized_pairs mapped listed

unfoldable pub sizes_by_episode : FileEpisodeMap → Dict Text ℕ → Dict ℕ ℕ
sizes_by_episode mapped listed = unambiguous (sized_pairs mapped listed)

-- `tuple(i for i in ids if i)`
abbrev pub clean_ids : List ℕ → List ℕ
clean_ids ids = select (λ i. not (i == 0)) ids

unfoldable pub joined_map : FileEpisodeMap → FileEpisodeMap → FileEpisodeMap
joined_map base added = base ++ select (λ e. not (contains e.0 (keys base))) added

module _ (nfc : Text → Text) where
  unfoldable pub map_step : FileEpisodeMap → Text × List ℕ → FileEpisodeMap
  map_step normalized (name, ids) =
      if is_empty (clean_ids ids)
      then normalized
      else set_default (normalized_leaf nfc name) (clean_ids ids) normalized

  -- `_normalized_map`
  unfoldable pub normalized_map : FileEpisodeMap → FileEpisodeMap
  normalized_map entries = fold map_step [] entries

  -- `_normalized_keys`
  unfoldable pub normalized_keys : Dict Text ℕ → Dict Text ℕ
  normalized_keys by_name =
      unambiguous (map {A = Text × ℕ} {B = Text × ℕ} (λ e. (normalized_leaf nfc e.0, e.1)) by_name)

  -- `_normalized_names`, as a set
  unfoldable pub normalized_names : List Text → List Text
  normalized_names names = map (normalized_leaf nfc) names
