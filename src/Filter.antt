-- ===== src/Filter.antt =====
-- pearlarr/seadex_filter.py: the release filter. `TorrentRecord` and `Tracker.is_public` belong to
-- the seadex package: the record has the fields that the filter reads, and the test of a tracker
-- is a parameter. The prompt of `interactive_pick` is left out.
pub mod Cover
pub mod Narrow
pub mod Build
pub mod Planned
mod Tests
use pearlarr.Base.{
  ℕ, Bool, true, false, not, ◌&&◌, ◌||◌, Option, List, [], ◌++◌, if◌then◌else◌, Dict, get_else, put,
  set_default, map_values, values, contains, any, select, is_empty, Counter, counter, counter_le,
  union, nat_eq, list_eq, map, fold,
}
use pearlarr.Text.{Text, casefold, normalized_infohash}
use pearlarr.Releases.{
  UrlItem, ReleaseGroup, SeadexDict, modify_urls, ignore_tag_set, carries_ignored_tag,
}

pub record TorrentFile : Type 0 where
  pub name : Text
  pub size : ℕ

pub record TorrentRecord : Type 0 where
  pub url : Text
  pub tracker : Text
  pub release_group : Text
  pub tags : List Text
  pub files : List TorrentFile
  pub infohash : Option Text
  pub is_best : Bool
  pub is_dual_audio : Bool

pub data PrivateReleaseAction : Type 0 where
  warn fallback : PrivateReleaseAction

abbrev pub is_fallback_action : PrivateReleaseAction → Bool
is_fallback_action warn = false
is_fallback_action fallback = true

pub record SeadexConfig : Type 0 where
  pub ignore_tags : List Text
  pub trackers : List Text
  pub private_releases : PrivateReleaseAction
  pub prefer_dual_audio : Bool
  pub want_best : Bool

-- `_file_sizes`
abbrev pub file_sizes : TorrentRecord → List ℕ
file_sizes t = map (λ (f : TorrentFile). f.size) t.files

unfoldable pub file_size_cover : List (List ℕ) → Counter ℕ
file_size_cover listings = fold (λ cover l. union cover (counter l)) [] listings

abbrev pub group_public_cover : Dict Text UrlItem → Counter ℕ
group_public_cover urls =
    file_size_cover
      (map (λ (u : UrlItem). u.size) (select (λ (u : UrlItem). u.is_public) (values urls)))

-- the test of one entry of a group
abbrev pub uncovered : Dict Text UrlItem → Text × UrlItem → Bool
uncovered urls (url, u) = u.is_public || not (counter_le (counter u.size) (group_public_cover urls))

-- `_prune_covered_private`, of one group
unfoldable pub prune_group : ReleaseGroup → ReleaseGroup
prune_group g =
    if not (any (λ (u : UrlItem). u.is_public) (values g.urls))
    then g
    else record g { urls = select (uncovered g.urls) g.urls }

unfoldable pub prune_covered_private : SeadexDict → SeadexDict
prune_covered_private d = map_values {V = ReleaseGroup} {W = ReleaseGroup} prune_group d

module _ (cfg : SeadexConfig) where
  preferred_audio : List TorrentRecord → List TorrentRecord
  preferred_audio torrents =
      let preferred =
        select (λ t. if cfg.prefer_dual_audio then t.is_dual_audio else not t.is_dual_audio)
          torrents in
      if is_empty preferred then torrents else preferred

  -- `_narrow_candidates`
  unfoldable pub narrow_candidates : List TorrentRecord → List TorrentRecord
  unfolding preferred_audio
  narrow_candidates torrents =
      let pool = preferred_audio torrents in
      let best = select (λ t. t.is_best) pool in
      if cfg.want_best && not (is_empty best) then best else pool

module _ (tracker_is_public : Text → Bool) (private_trackers : List Text) where
  -- `_is_public_torrent`
  abbrev pub is_public_torrent : TorrentRecord → Bool
  is_public_torrent t =
      tracker_is_public t.tracker && not (contains (casefold t.tracker) private_trackers)

  group_has_public : Dict Text Bool → TorrentRecord → Dict Text Bool
  group_has_public d t =
      put t.release_group (get_else t.release_group false d || is_public_torrent t) d

  group_has_blind_public : Dict Text Bool → TorrentRecord → Dict Text Bool
  group_has_blind_public d t =
      put t.release_group
        (get_else t.release_group false d || (is_public_torrent t && is_empty t.files)) d

  unfoldable pub needs_fallback : List TorrentRecord → TorrentRecord → Bool
  unfolding group_has_public group_has_blind_public
  needs_fallback candidates t =
      let public_cover = file_size_cover (map file_sizes (select is_public_torrent candidates)) in
      if is_public_torrent t
      then false
      else if is_empty t.files
      then not (get_else t.release_group false (fold group_has_public [] candidates))
      else if get_else t.release_group false (fold group_has_blind_public [] candidates)
      then false
      else not (counter_le (counter (file_sizes t)) public_cover)

  module _ (cfg : SeadexConfig) where
    -- the torrents among which a fallback is chosen
    abbrev pub alternatives : List TorrentRecord → List TorrentRecord → List TorrentRecord
    alternatives final_torrent_list candidates =
        select
          (λ t.
            is_public_torrent t
            && not (contains t.url (map (λ (c : TorrentRecord). c.url) candidates)))
          final_torrent_list

    -- `_augment_with_public_fallbacks`
    unfoldable pub augment_with_public_fallbacks :
        List TorrentRecord → List TorrentRecord → List TorrentRecord × List Text
    augment_with_public_fallbacks final_torrent_list candidates =
        let fallbacks = narrow_candidates cfg (alternatives final_torrent_list candidates) in
        if not (is_fallback_action cfg.private_releases)
        then (candidates, [])
        else if not (any (needs_fallback candidates) candidates)
        then (candidates, [])
        else (candidates ++ fallbacks, map (λ (t : TorrentRecord). t.url) fallbacks)

    -- the item of a torrent, with the infohash spelled as `__post_init__` spells it
    unfoldable pub url_item : List Text → TorrentRecord → UrlItem
    url_item fallback_urls t = record {
      url = t.url;
      files = map (λ (f : TorrentFile). f.name) t.files;
      size = file_sizes t;
      tracker = t.tracker;
      is_public = is_public_torrent t;
      is_dual_audio = t.is_dual_audio;
      infohash = normalized_infohash t.infohash;
      download = false;
      is_fallback = contains t.url fallback_urls;
      upgrade = false;
      episodes = [];
      hold = Option.none;
      hold_counts = record { elsewhere = 0; unplaced = 0 };
    }

    -- one torrent of the last loop of `build`
    unfoldable pub add_torrent : List Text → SeadexDict → TorrentRecord → SeadexDict
    add_torrent fallback_urls d t =
        modify_urls t.release_group (put t.url (url_item fallback_urls t)) (
          set_default t.release_group
            (record { urls = []; tags = t.tags; all_episodes = Option.none }) d)

    -- the torrents that the tags and the trackers let through
    unfoldable pub final_torrents : List TorrentRecord → List TorrentRecord
    final_torrents torrents =
        select (λ t. contains (casefold t.tracker) cfg.trackers)
          (select (λ t. not (carries_ignored_tag t.tags (ignore_tag_set cfg.ignore_tags))) torrents)

    unfoldable pub build : List TorrentRecord → SeadexDict
    build torrents =
        let final_torrent_list = final_torrents torrents in
        let (candidates, fallback_urls) =
          augment_with_public_fallbacks final_torrent_list
            (narrow_candidates cfg final_torrent_list) in
        prune_covered_private (fold (add_torrent fallback_urls) [] candidates)
