-- ===== src/Releases/Tests.antt =====
-- Pairs of which one key is claimed twice, and two episodes of the same numbers.
use pearlarr.Base.{
  none, ℕ, true, ◌≡◌, ◌↔◌, some, List, [], ◌∷◌, get, any, all, not, ◌&&◌, ◌||◌, ◌==◌, nat_eq,
}
use pearlarr.Releases.{
  unambiguous, SonarrEpisode, key_eq, index_episodes_by_key, season_episode_key,
}
use pearlarr.Releases.Index.{get-index_episodes_by_key}
use pearlarr.Releases.Pairs.{get-unambiguous}

abbrev claims : List (ℕ × ℕ)
claims = (1, 10) ∷ (2, 20) ∷ (1, 11) ∷ (2, 20) ∷ []

get-unambiguous_example : (get 2 (unambiguous claims) ≡ some 20) ↔ (
    (any (λ p. (2 == p.0) && (p.1 == 20)) claims ≡ true)
    × (all (λ p. not (2 == p.0) || (p.1 == 20)) claims ≡ true))
get-unambiguous_example = get-unambiguous 2 20 claims

-- an episode of the id, all numbered alike
abbrev numbered : ℕ → SonarrEpisode
numbered id = record {
  id = id;
  season_number = some 1;
  episode_number = some 3;
  absolute_episode_number = none;
  title = [];
  tvdb_id = none;
  episode_file_id = 0;
  monitored = true;
  episode_file = none;
}

abbrev two_claims : List SonarrEpisode
two_claims = numbered 1 ∷ numbered 2 ∷ []

get-index_episodes_by_key_example :
    get (record { season = 1; episode = 3 }) (index_episodes_by_key two_claims) ≡ some (numbered 1)
unfolding season_episode_key
get-index_episodes_by_key_example =
    get-index_episodes_by_key (record { season = 1; episode = 3 }) two_claims
