-- ===== src/Planner/Plan.antt =====
-- `DownloadPlanner.filter_by_release_group`, `filter_by_torrent_hash` and `plan`.
pub mod Hashes
pub mod Shape
use pearlarr.Base.{
  ℕ, Bool, false, ◌&&◌, ◌||◌, Option, none, some, List, [], ◌∷◌, ◌++◌, ltb, if◌then◌else◌, Dict,
  get, set_default, modify, keys, values, map_values, any, is_some, contains, distinct, nat_eq,
  option_eq, list_eq, fold, map,
}
use pearlarr.Text.{Text, normalize_rg}
use pearlarr.Releases.{
  EpisodeKey, key_eq, UrlItem, ReleaseGroup, SeadexDict, SonarrEpisode, ArrReleases, FlaggedUrl,
  flag, flagged_urls, index_episodes_by_key,
}
use pearlarr.Planner.Types.{OwnedEpisode, no_guards, PlanResult}
use pearlarr.Planner.Reduce.{reduce_overlapping_downloads}
use pearlarr.Planner.Ownership.{
  untagged_counter, owns_untagged_copy, episode_coverage, EpisodeIdentity, Index,
  episode_identities,
}
use pearlarr.Planner.Match.{MatchContext, name_in, match_url}
use pearlarr.Planner.Match.Verdicts.{group_verdicts}

-- the two settings that decide
pub record DownloadPlanner : Type 0 where
  pub interactive : Bool
  pub use_torrent_hash_to_filter : Bool

-- one tagged group of the arr, merged under its normal name
merge_sizes : Dict Text (List ℕ) → Text × List ℕ → Dict Text (List ℕ)
merge_sizes merged (arr_rg, sizes) = elim (normalize_rg (some arr_rg)) [
  | none ↦ merged
  | some norm ↦ modify norm (λ l. l ++ sizes) (set_default norm [] merged)
]

-- the infohash of every url, in order
unfoldable pub infohashes : List ReleaseGroup → List (Option Text)
infohashes [] = []
infohashes (g ∷ gs) = map (λ (u : UrlItem). u.infohash) (values g.urls) ++ infohashes gs

unfoldable pub hash_url : List (Option Text) → UrlItem → UrlItem
hash_url cached u = if contains u.infohash cached then u else flag false u

-- the context of one entry
unfoldable pub match_context : SeadexDict → ArrReleases → Option (List SonarrEpisode) → MatchContext
unfolding merge_sizes
match_context d arr_releases ep_list =
    let arr_sizes_by_norm = fold merge_sizes [] arr_releases.tagged in
    let named = any (λ rg. name_in (normalize_rg (some rg)) (keys arr_sizes_by_norm)) (keys d) in
    let index =
      index_episodes_by_key
        (elim ep_list as (λ _. List SonarrEpisode) [ none ↦ [] | some l ↦ l ]) in
    let e = episode_identities d index in
    let c = untagged_counter (arr_releases.untagged ++ values e.untagged_by_key) in
    let owned =
      any (λ (g : ReleaseGroup). any (λ (u : UrlItem). owns_untagged_copy c u.size) (values g.urls))
        (values d) in
    record {
      arr_sizes_by_norm = arr_sizes_by_norm;
      overlapping_results = named || (is_some c && owned);
      sonarr_by_key = index;
      episode_identities = e.identities;
      untagged_counter = c;
      coverage = episode_coverage d index;
      has_ep_list = is_some ep_list;
    }

-- the loop over the urls
unfoldable pub match_groups : MatchContext → SeadexDict → SeadexDict
match_groups ctx [] = []
match_groups ctx ((rg, g) ∷ d) =
    (rg, record g { urls = map_values (match_url ctx rg) g.urls }) ∷ match_groups ctx d

-- the ownership claims that the import inherits
owned_episodes : Index → Dict EpisodeKey EpisodeIdentity → List OwnedEpisode
owned_episodes index [] = []
owned_episodes index ((key, identity) ∷ ids) =
    let rest = owned_episodes index ids in
    elim identity.size [
      | none ↦ rest
      | some size ↦ elim (get key index) [
        | none ↦ rest
        | some ep ↦
            if identity.by_size && ltb 0 size && ltb 0 ep.id
            then record { ep_id = ep.id; size = size } ∷ rest
            else rest
      ]
    ]

module _ (p : DownloadPlanner) where
  unfoldable pub filter_by_release_group :
      SeadexDict → ArrReleases → Option (List SonarrEpisode) → PlanResult
  unfolding owned_episodes
  filter_by_release_group d arr_releases ep_list =
      let ctx = match_context d arr_releases ep_list in
      let (reduced, skips) = reduce_overlapping_downloads p.interactive (match_groups ctx d) in
      let verdicts = group_verdicts reduced ctx in
      record {
        seadex_dict = reduced;
        torrent_hashes = map (λ (f : FlaggedUrl). some f.infohash) (flagged_urls reduced);
        skips = skips;
        guards = record {
          entry_groups = verdicts.current_groups;
          stale_groups = verdicts.stale_groups;
          owned_episodes = owned_episodes ctx.sonarr_by_key ctx.episode_identities;
        };
      }

  unfoldable pub filter_by_torrent_hash : SeadexDict → List (Option Text) → PlanResult
  unfolding infohashes
  filter_by_torrent_hash d cached =
      let flagged =
        map_values {V = ReleaseGroup} {W = ReleaseGroup}
          (λ g. record g { urls = map_values (hash_url cached) g.urls }) d in
      let (reduced, skips) = reduce_overlapping_downloads p.interactive flagged in
      record {
        seadex_dict = reduced;
        torrent_hashes = infohashes (values d);
        skips = skips;
        guards = no_guards;
      }

  unfoldable pub plan :
      SeadexDict → ArrReleases → List (Option Text) → Option (List SonarrEpisode) → PlanResult
  plan d arr_releases cached ep_list =
      let result =
        if p.use_torrent_hash_to_filter
        then filter_by_torrent_hash d cached
        else (let r = filter_by_release_group d arr_releases ep_list in
            record r { torrent_hashes = r.torrent_hashes ++ cached }) in
      record result { torrent_hashes = distinct result.torrent_hashes }

-- `get_any_to_download`
unfoldable pub get_any_to_download : SeadexDict → Bool
get_any_to_download d =
    any (λ (g : ReleaseGroup). any (λ (u : UrlItem). u.download) (values g.urls)) (values d)
