-- ===== src/Planner/Reduce/Tests.antt =====
-- A private and a public release of one episode, and what the reduction makes of them.
use pearlarr.Base.{
  any, fold, Bool, true, false, ◌≡◌, refl, none, some, [], ◌∷◌, Memᴰ, arith, contains, nat_eq,
  list_eq, option_eq, pair_eq,
}
use pearlarr.Text.{Text, text}
use pearlarr.Releases.{
  url_at, EpisodeRecord, UrlItem, ReleaseGroup, SeadexDict, modify_urls, unflag,
}
use pearlarr.Planner.Types.{no_skips}
use pearlarr.Planner.Coverage.{get_episode_keys, get_same_files_groups}
use pearlarr.Planner.Reduce.{
  Urls, reduce_program, reduce_overlapping_downloads, reduce_step, survivor_keys,
}
use pearlarr.Planner.Reduce.Loop.{all_apart}
use pearlarr.Planner.Reduce.Partition.{get_same_files_groups-partition}
use pearlarr.Planner.Reduce.Complete.{rounds-lossless}
use pearlarr.Planner.Reduce.Refines.{HasUrlKeys}
use pearlarr.Planner.Reduce.Shape.{without_flags}
use pearlarr.Planner.Reduce.Flagging.{wrongly_flagged, reduce_overlapping_downloads-flags}
use pearlarr.Planner.Reduce.Lossless.{reduce_step-lossless}

abbrev first_episode : EpisodeRecord
first_episode = record { season = some 1; episode = some 1; size = 700 }

abbrev sample_url : Text → Bool → Bool → UrlItem
sample_url url is_public download = record {
  url = url;
  files = text "ep" ∷ [];
  size = 700 ∷ [];
  tracker = text "Nyaa";
  is_public = is_public;
  is_dual_audio = false;
  infohash = some (text "aa");
  download = download;
  is_fallback = false;
  upgrade = false;
  episodes = first_episode ∷ [];
  hold = none;
  hold_counts = record { elsewhere = 0; unplaced = 0 };
}

abbrev sample_group : UrlItem → ReleaseGroup
sample_group u = record {
  urls = (u.url, u) ∷ [];
  tags = [];
  all_episodes = some (first_episode ∷ []);
}

-- "a" is private and flagged, "b" public and flagged
abbrev sample_dict : SeadexDict
sample_dict =
    (text "a", sample_group (sample_url (text "u") false true))
    ∷ (text "b", sample_group (sample_url (text "v") true true))
    ∷ []

sample_dict-HasUrlKeys : HasUrlKeys sample_dict
sample_dict-HasUrlKeys rg = ground arith

-- The public release is kept and the private one is not.
reduced_dict :
    (reduce_overlapping_downloads false sample_dict).0
    ≡ (text "a", sample_group (sample_url (text "u") false false))
      ∷ (text "b", sample_group (sample_url (text "v") true true))
      ∷ []
unfolding reduce_program modify_urls unflag
reduced_dict = refl

reduce_overlapping_downloads-flags_example :
    (without_flags (reduce_overlapping_downloads false sample_dict).0 ≡ without_flags sample_dict)
    × (wrongly_flagged
          (url_at (text "b") (text "v") sample_dict)
          (url_at (text "b") (text "v") (reduce_overlapping_downloads false sample_dict).0)
        ≡ false)
reduce_overlapping_downloads-flags_example =
    reduce_overlapping_downloads-flags false sample_dict (text "b") (text "v")
      sample_dict-HasUrlKeys

reduce_step-lossless_example :
    contains
      (some 1, some 1)
      (survivor_keys
        (text "a" ∷ text "b" ∷ [])
        (reduce_step (sample_dict, no_skips) (text "a" ∷ text "b" ∷ [])).0)
    ≡ true
unfolding get_episode_keys
reduce_step-lossless_example =
    reduce_step-lossless sample_dict no_skips (text "a" ∷ text "b" ∷ []) (text "b") (text "v")
      (sample_url (text "v") true true) (some 1, some 1) sample_dict-HasUrlKeys
      (Memᴰ.tail (Memᴰ.head refl)) refl
      (record { download = refl; is_public = refl; listed = refl })

-- one release on two trackers
abbrev mirrored : Urls
mirrored =
    (text "u", sample_url (text "u") true true) ∷ (text "v", sample_url (text "v") true true) ∷ []

rounds-lossless_example :
    contains
      (some 1, some 1)
      (survivor_keys
        (text "a" ∷ text "b" ∷ [])
        (fold reduce_step (sample_dict, no_skips) (get_same_files_groups sample_dict)).0)
    ≡ true
unfolding get_episode_keys get_same_files_groups
rounds-lossless_example =
    rounds-lossless sample_dict (text "a" ∷ text "b" ∷ []) (text "b") (text "v")
      (sample_url (text "v") true true) (some 1, some 1) refl sample_dict-HasUrlKeys
      (Memᴰ.head refl) (Memᴰ.tail (Memᴰ.head refl)) refl
      (record { download = refl; is_public = refl; listed = refl })

get_same_files_groups-partition_example :
    (all_apart (get_same_files_groups sample_dict) ≡ true)
    × (any (contains (text "c")) (get_same_files_groups sample_dict) ≡ false)
get_same_files_groups-partition_example =
    get_same_files_groups-partition sample_dict (text "c") refl
