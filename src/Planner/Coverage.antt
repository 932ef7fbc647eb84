-- ===== src/Planner/Coverage.antt =====
-- `get_episode_keys` and `get_same_files_groups`: release groups that cover the same files.
use pearlarr.Base.{
  ℕ, Bool, true, false, Option, none, some, List, [], ◌∷◌, ◌++◌, ◌==◌, if◌then◌else◌, values,
  same_set, nat_eq, option_eq, list_eq, pair_eq, map, fold,
}
use pearlarr.Text.{Text}
use pearlarr.Releases.{EpisodeRecord, ReleaseGroup, SeadexDict}

-- A parsed (season, episode), either of which may be missing.
abbrev pub ParsedKey : Type 0
ParsedKey = Option ℕ × Option ℕ

unfoldable pub get_episode_keys : List EpisodeRecord → List ParsedKey
get_episode_keys eps = map (λ ep. (ep.season, ep.episode)) eps

-- The three shapes of the grouping key.
pub data CoverageKey : Type 0 where
  no_episode_parsing : CoverageKey
  unparsed : Text → CoverageKey
  covers : List ParsedKey → CoverageKey

unfoldable pub coverage_key : Text → ReleaseGroup → CoverageKey
unfolding get_episode_keys
coverage_key rg item = elim item.all_episodes [
  | none ↦ no_episode_parsing
  | some [] ↦ unparsed rg
  | some (ep ∷ eps) ↦ covers (get_episode_keys (ep ∷ eps))
]

-- Equality of two keys as dict keys: a frozenset equals another of the same elements.
unfoldable pub same_coverage : CoverageKey → CoverageKey → Bool
same_coverage no_episode_parsing no_episode_parsing = true
same_coverage (unparsed a) (unparsed b) = a == b
same_coverage (covers xs) (covers ys) = same_set xs ys
same_coverage _ _ = false

-- `grouped.setdefault(key, []).append(rg)`
unfoldable pub add_to_group :
    CoverageKey → Text → List (CoverageKey × List Text) → List (CoverageKey × List Text)
unfolding same_coverage
add_to_group key rg [] = (key, rg ∷ []) ∷ []
add_to_group key rg ((k, names) ∷ grouped) =
    let rest = add_to_group key rg grouped in
    if same_coverage k key then (k, names ++ rg ∷ []) ∷ grouped else (k, names) ∷ rest

abbrev pub group_step :
    List (CoverageKey × List Text) → Text × ReleaseGroup → List (CoverageKey × List Text)
group_step grouped (rg, item) = add_to_group (coverage_key rg item) rg grouped

unfoldable pub get_same_files_groups : SeadexDict → List (List Text)
unfolding add_to_group coverage_key
get_same_files_groups d = values (fold group_step [] d)
