-- ===== src/Releases/Index.antt =====
-- `index_episodes_by_key`.
use pearlarr.Base.{
  Bool, ◌≡◌, List, [], ◌∷◌, arith, ◌==◌, if◌then◌else◌, first, get, get-set_default, set_default,
  is_some, Dict,
}
use pearlarr.Releases.{
  EpisodeKey, key_eq, SonarrEpisode, season_episode_key, index_from, index_episodes_by_key,
}

abbrev has_key : EpisodeKey → SonarrEpisode → Bool
has_key key ep = key == season_episode_key ep.season_number ep.episode_number

get-index_from :
    (key : EpisodeKey) (eps : List SonarrEpisode) (index : Dict EpisodeKey SonarrEpisode)
    → get key (index_from index eps)
      ≡ (if is_some (get key index) then get key index else first (has_key key) eps)
unfolding index_from
get-index_from key [] index = ground arith
get-index_from key (ep ∷ eps) index = ground (
  arith,
  get-index_from key eps
      (set_default (season_episode_key ep.season_number ep.episode_number) ep index),
  get-set_default key (season_episode_key ep.season_number ep.episode_number) ep index,
)

-- The index maps a season and an episode to the first listed episode of those numbers, and to none
-- where no episode has them.
pub get-index_episodes_by_key :
    (key : EpisodeKey) (eps : List SonarrEpisode)
    → get key (index_episodes_by_key eps) ≡ first (has_key key) eps
unfolding index_episodes_by_key
get-index_episodes_by_key key eps = get-index_from key eps []
