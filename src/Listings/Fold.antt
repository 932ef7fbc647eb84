-- ===== src/Listings/Fold.antt =====
-- pearlarr/listing_fold.py: the listings of the torrents of a series and the sizes that name an episode. A
-- `TorrentListing` has the fields that the fold writes.
use pearlarr.Base.{
  ℕ, Option, none, some, List, [], ◌∷◌, ◌++◌, ◌==◌, if◌then◌else◌, Dict, modify, set_default,
  map_values, distinct, length, fold, nat_eq, list_eq, ltb, ◌>>=◌,
}
use pearlarr.Text.{Text, normalized_infohash}
use pearlarr.Releases.{unambiguous, carries_ignored_tag}
use pearlarr.Filter.{TorrentRecord, TorrentFile}
use pearlarr.Imports.Names.{path_leaf}
use pearlarr.Imports.Record.{EntryWindow}
use pearlarr.Sonarr.Videos.{is_video_candidate}

pub record SpecialAliasing : Type 0 where
  pub tmdb_id : ℕ
  pub aliases : Dict ℕ ℕ

-- an entry with the torrents of its record
pub record EntryListing : Type 0 where
  pub torrents : List TorrentRecord
  pub window : Option EntryWindow
  pub special_aliasing : Option SpecialAliasing

pub record TorrentListing : Type 0 where
  pub entries : List EntryWindow
  pub special_aliases : Dict ℕ ℕ

pub record ListingsRead : Type 0 where
  pub by_hash : Dict Text (Option TorrentListing)
  pub identities : Option (Dict ℕ ℕ)

-- `by_hash.setdefault(infohash, []).append(entry)`
unfoldable pub list_under :
    EntryListing → Dict Text (List EntryListing) → Option Text → Dict Text (List EntryListing)
list_under entry by_hash none = by_hash
list_under entry by_hash (some infohash) =
    modify infohash (λ listed. listed ++ entry ∷ []) (set_default infohash [] by_hash)

unfoldable pub add_entry :
    Dict Text (List EntryListing) → EntryListing → Dict Text (List EntryListing)
add_entry by_hash entry =
    fold (λ d (t : TorrentRecord). list_under entry d (normalized_infohash t.infohash)) by_hash
      entry.torrents

-- the windows of the entries, none when one is unread
unfoldable pub windows_of : List EntryListing → Option (List EntryWindow)
windows_of [] = some []
windows_of (e ∷ es) = do window ← e.window; rest ← windows_of es; some (window ∷ rest)

unfoldable pub aliases_of : Option SpecialAliasing → Dict ℕ ℕ
aliases_of none = []
aliases_of (some a) = a.aliases

unfoldable pub show_of : Option SpecialAliasing → List ℕ
show_of none = []
show_of (some a) = a.tmdb_id ∷ []

unfoldable pub alias_pairs : List EntryListing → List (ℕ × ℕ)
alias_pairs [] = []
alias_pairs (e ∷ es) = aliases_of e.special_aliasing ++ alias_pairs es

unfoldable pub shows_of : List EntryListing → List ℕ
shows_of [] = []
shows_of (e ∷ es) = show_of e.special_aliasing ++ shows_of es

-- `_torrent_listing`
unfoldable pub torrent_listing : List EntryListing → Option TorrentListing
torrent_listing entries = do
  windows ← windows_of entries
  some (record {
    entries = windows;
    special_aliases =
        if length (distinct (shows_of entries)) == 1 then unambiguous (alias_pairs entries) else [];
  })

-- the sizes of the video files
unfoldable pub video_sizes : List TorrentFile → List ℕ
video_sizes [] = []
video_sizes (f ∷ fs) =
    let rest = video_sizes fs in
    if is_video_candidate (path_leaf f.name) then f.size ∷ rest else rest

-- the pair of a torrent with one video file of a known size
unfoldable pub lone_size : List ℕ → ℕ → List (ℕ × ℕ)
lone_size [] ep_id = []
lone_size (size ∷ []) ep_id = if ltb 0 size then (size, ep_id) ∷ [] else []
lone_size (size ∷ other ∷ sizes) ep_id = []

unfoldable pub torrent_identities : List Text → ℕ → List TorrentRecord → List (ℕ × ℕ)
torrent_identities ignore_tags ep_id [] = []
torrent_identities ignore_tags ep_id (t ∷ ts) =
    let rest = torrent_identities ignore_tags ep_id ts in
    if carries_ignored_tag t.tags ignore_tags
    then rest
    else lone_size (video_sizes t.files) ep_id ++ rest

-- the pairs of a window of these ids
unfoldable pub window_identities : List Text → List TorrentRecord → List ℕ → List (ℕ × ℕ)
window_identities ignore_tags torrents [] = []
window_identities ignore_tags torrents (ep_id ∷ []) = torrent_identities ignore_tags ep_id torrents
window_identities ignore_tags torrents (ep_id ∷ other ∷ ids) = []

unfoldable pub size_identities : List TorrentRecord → EntryWindow → List Text → List (ℕ × ℕ)
size_identities torrents window ignore_tags =
    window_identities ignore_tags torrents window.ordered_episode_ids

unfoldable pub identity_pairs : List EntryListing → List Text → Option (List (ℕ × ℕ))
identity_pairs [] ignore_tags = some []
identity_pairs (e ∷ es) ignore_tags = do
  window ← e.window
  rest ← identity_pairs es ignore_tags
  some (size_identities e.torrents window ignore_tags ++ rest)

-- `_series_identities`
unfoldable pub series_identities : List EntryListing → List Text → Option (Dict ℕ ℕ)
series_identities entries ignore_tags = do
  pairs ← identity_pairs entries ignore_tags
  some (unambiguous pairs)

unfoldable pub fold_listings : List EntryListing → List Text → ListingsRead
fold_listings entries ignore_tags = record {
  by_hash = map_values torrent_listing (fold add_entry [] entries);
  identities = series_identities entries ignore_tags;
}
