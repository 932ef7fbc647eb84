-- ===== src/Filter/Planned.antt =====
-- What a plan offers of a built dictionary.
use pearlarr.Base.{
  Bool, true, false, ◌≡◌, ◌∙◌, ap, Option, some, List, Memᴰ, contains, nat_eq, list_eq,
}
use pearlarr.Text.{Text, casefold}
use pearlarr.Releases.{
  UrlItem, SonarrEpisode, ArrReleases, url_at, unflag, ignore_tag_set, carries_ignored_tag,
}
use pearlarr.Filter.{TorrentRecord, SeadexConfig, build, file_sizes, is_public_torrent}
use pearlarr.Filter.Build.{build-IsBuilt}
use pearlarr.Planner.Plan.{DownloadPlanner, plan}
use pearlarr.Planner.Plan.Shape.{without_flags-plan, without_flags-url_at}

-- Whatever the arr holds and the cache knows, each url that a plan over a built dictionary has, flagged or not, is that
-- of a torrent of the entry with an allowed tracker and no ignored tag, under its group and with its sizes, and counts
-- as public exactly when the torrent does.
pub plan-build :
    (tracker_is_public : Text → Bool) (private_trackers : List Text) (cfg : SeadexConfig)
    (torrents : List TorrentRecord) (p : DownloadPlanner) (arr_releases : ArrReleases)
    (cached : List (Option Text)) (ep_list : Option (List SonarrEpisode)) (rg url : Text)
    (v : UrlItem)
    → url_at rg url
        (plan p
          (build tracker_is_public private_trackers cfg torrents)
          arr_releases
          cached
          ep_list).seadex_dict
      ≡ some v
    → (t : TorrentRecord) × Memᴰ t torrents
      × (contains (casefold t.tracker) cfg.trackers ≡ true)
      × (carries_ignored_tag t.tags (ignore_tag_set cfg.ignore_tags) ≡ false)
      × (t.release_group ≡ rg)
      × (t.url ≡ url)
      × (v.size ≡ file_sizes t)
      × (v.is_public ≡ is_public_torrent tracker_is_public private_trackers t)
unfolding unflag
plan-build tracker_is_public private_trackers cfg torrents p arr_releases cached ep_list rg url v
      e =
    let d = build tracker_is_public private_trackers cfg torrents in
    let (u, found, same) =
      without_flags-url_at rg url d _ (without_flags-plan p d arr_releases cached ep_list) e in
    let b = build-IsBuilt tracker_is_public private_trackers cfg torrents rg url u found in
    (
      b.torrent,
      b.listed,
      b.tracker,
      b.tags,
      b.group,
      b.key,
      ap (λ (x : UrlItem). x.size) same ∙ b.size,
      ap (λ (x : UrlItem). x.is_public) same ∙ b.is_public,
    )
