-- ===== src/Filter/Tests.antt =====
-- An entry with a private pick and a public alternative.
use pearlarr.Base.{
  ℕ, ◌≤◌, if◌then◌else◌, Bool, true, false, ◌≡◌, refl, ◌↔◌, none, some, List, [], ◌∷◌, Memᴰ, count,
  nat_eq, list_eq, ◌==◌, counter, union, counter_le,
}
use pearlarr.Text.{Text, text, casefold, normalized_infohash}
use pearlarr.Releases.{UrlItem, url_at, modify_urls, ignore_tag_set, carries_ignored_tag}
use pearlarr.Filter.{
  TorrentRecord, SeadexConfig, fallback, file_size_cover, prune_group, prune_covered_private,
  preferred_audio, narrow_candidates, group_has_public, group_has_blind_public, needs_fallback,
  augment_with_public_fallbacks, url_item, add_torrent, final_torrents, build,
}
use pearlarr.Filter.Cover.{Fits, file_size_cover_least}
use pearlarr.Planner.Reduce.{reduce_overlapping_downloads}
use pearlarr.Planner.Plan.{DownloadPlanner, hash_url, filter_by_torrent_hash, plan}
use pearlarr.Releases.{flag, ArrReleases}
use pearlarr.Base.{contains}
use pearlarr.Filter.{file_sizes}
use pearlarr.Filter.{is_public_torrent}
use pearlarr.Filter.Planned.{plan-build}
use pearlarr.Filter.Build.{IsBuilt, build-IsBuilt}

abbrev sample_torrent : Text → Text → Bool → TorrentRecord
sample_torrent url tracker is_best = record {
  url = url;
  tracker = tracker;
  release_group = text "g";
  tags = [];
  files = record { name = text "ep"; size = if is_best then 700 else 600 } ∷ [];
  infohash = none;
  is_best = is_best;
  is_dual_audio = true;
}

abbrev sample_torrents : List TorrentRecord
sample_torrents =
    sample_torrent (text "p") (text "AB") true ∷ sample_torrent (text "q") (text "Nyaa") false ∷ []

abbrev sample_config : SeadexConfig
sample_config = record {
  ignore_tags = [];
  trackers = text "ab" ∷ text "nyaa" ∷ [];
  private_releases = fallback;
  prefer_dual_audio = true;
  want_best = true;
}

abbrev on_nyaa : Text → Bool
on_nyaa tracker = tracker == text "Nyaa"

abbrev fallback_item : UrlItem
fallback_item = record {
  url = text "q";
  files = text "ep" ∷ [];
  size = 600 ∷ [];
  tracker = text "Nyaa";
  is_public = true;
  is_dual_audio = true;
  infohash = none;
  download = false;
  is_fallback = true;
  upgrade = false;
  episodes = [];
  hold = none;
  hold_counts = record { elsewhere = 0; unplaced = 0 };
}

offers_fallback :
    url_at (text "g") (text "q") (build on_nyaa (text "ab" ∷ []) sample_config sample_torrents)
    ≡ some fallback_item
unfolding file_size_cover prune_group prune_covered_private preferred_audio narrow_candidates
    group_has_public group_has_blind_public needs_fallback augment_with_public_fallbacks url_item
    add_torrent final_torrents build modify_urls casefold ignore_tag_set carries_ignored_tag
    normalized_infohash counter union counter_le
offers_fallback = refl

build-IsBuilt_example :
    IsBuilt on_nyaa
      (text "ab" ∷ [])
      sample_config
      sample_torrents
      (text "g")
      (text "q")
      fallback_item
build-IsBuilt_example =
    build-IsBuilt on_nyaa (text "ab" ∷ []) sample_config sample_torrents (text "g") (text "q")
      fallback_item offers_fallback

abbrev by_hash : DownloadPlanner
by_hash = record { interactive = true; use_torrent_hash_to_filter = true }

abbrev no_releases : ArrReleases
no_releases = record { tagged = []; untagged = [] }

abbrev wanted_item : UrlItem
wanted_item = record fallback_item { download = true }

plans_fallback :
    url_at
      (text "g")
      (text "q")
      (plan by_hash
        (build on_nyaa (text "ab" ∷ []) sample_config sample_torrents)
        no_releases
        []
        none).seadex_dict
    ≡ some wanted_item
unfolding file_size_cover prune_group prune_covered_private preferred_audio narrow_candidates
    group_has_public group_has_blind_public needs_fallback augment_with_public_fallbacks url_item
    add_torrent final_torrents build modify_urls casefold ignore_tag_set carries_ignored_tag
    normalized_infohash counter union counter_le plan filter_by_torrent_hash hash_url flag
    reduce_overlapping_downloads
plans_fallback = refl

plan-build_example :
    (t : TorrentRecord) × Memᴰ t sample_torrents
    × (contains (casefold t.tracker) sample_config.trackers ≡ true)
    × (carries_ignored_tag t.tags (ignore_tag_set sample_config.ignore_tags) ≡ false)
    × (t.release_group ≡ text "g")
    × (t.url ≡ text "q")
    × (wanted_item.size ≡ file_sizes t)
    × (wanted_item.is_public ≡ is_public_torrent on_nyaa (text "ab" ∷ []) t)
plan-build_example =
    plan-build on_nyaa (text "ab" ∷ []) sample_config sample_torrents by_hash no_releases [] none
      (text "g") (text "q") wanted_item plans_fallback

file_size_cover_least_example :
    ((a : ℕ) → count a (file_size_cover ((3 ∷ 3 ∷ []) ∷ (3 ∷ 4 ∷ []) ∷ [])) ≤ 2)
    ↔ ((l : List ℕ) → Memᴰ l ((3 ∷ 3 ∷ []) ∷ (3 ∷ 4 ∷ []) ∷ []) → Fits l (λ _. 2))
file_size_cover_least_example = file_size_cover_least ((3 ∷ 3 ∷ []) ∷ (3 ∷ 4 ∷ []) ∷ []) (λ _. 2)
