-- ===== src/Planner/Plan/Hashes.antt =====
-- The hashes of a plan.
use pearlarr.Base.{
  ◌||◌, ◌≡◌, ◌∙◌, Option, some, List, ◌++◌, map, if◌then◌else◌, contains, contains-append,
  contains-distinct, nat_eq, list_eq, Bool-cases, inl, inr, option_eq, values,
}
use pearlarr.Text.{Text}
use pearlarr.Releases.{SeadexDict, SonarrEpisode, ArrReleases, FlaggedUrl, flagged_urls}
use pearlarr.Planner.Types.{PlanResult}
use pearlarr.Planner.Plan.{
  DownloadPlanner, filter_by_release_group, filter_by_torrent_hash, infohashes, plan,
}

module _ (p : DownloadPlanner) (d : SeadexDict) (arr_releases : ArrReleases)
    (cached : List (Option Text)) (ep_list : Option (List SonarrEpisode)) where
  abbrev planned : PlanResult
  planned = plan p d arr_releases cached ep_list

  flagged_hashes : List (Option Text)
  flagged_hashes = (filter_by_release_group p d arr_releases ep_list).torrent_hashes

  -- A plan by release group names the infohash of each url that it flags and every hash that the
  -- cache had, and no other. A plan by hash names the infohash of every url of the entry.
  pub contains-plan :
      (hash : Option Text)
      → contains hash planned.torrent_hashes ≡ (
          if p.use_torrent_hash_to_filter
          then contains hash (infohashes (values d))
          else (contains hash
                (map (λ (f : FlaggedUrl). some f.infohash) (flagged_urls planned.seadex_dict))
              || contains hash cached))
  unfolding plan filter_by_release_group filter_by_torrent_hash flagged_hashes
  contains-plan hash = elim (Bool-cases p.use_torrent_hash_to_filter) [
    | inl h ↦ rw h (contains-distinct hash (infohashes (values d)))
    | inr h ↦ rw h (
        contains-distinct hash (flagged_hashes ++ cached)
        ∙ contains-append hash flagged_hashes cached)
  ]
