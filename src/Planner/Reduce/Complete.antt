-- ===== src/Planner/Reduce/Complete.antt =====
-- The whole loop of `reduce_overlapping_downloads` over the same-files sets of a dictionary.
use pearlarr.Base.{
  true, ◌≡◌, some, List, Memᴰ, contains, unique, keys, nat_eq, list_eq, option_eq, pair_eq, fold,
}
use pearlarr.Text.{Text}
use pearlarr.Releases.{UrlItem, SeadexDict, url_at}
use pearlarr.Planner.Types.{no_skips}
use pearlarr.Planner.Coverage.{ParsedKey, get_same_files_groups}
use pearlarr.Planner.Reduce.{survivor_keys, reduce_step}
use pearlarr.Planner.Reduce.Refines.{HasUrlKeys}
use pearlarr.Planner.Reduce.Survivors.{Carries}
use pearlarr.Planner.Reduce.Loop.{loop-lossless}
use pearlarr.Planner.Reduce.Partition.{get_same_files_groups-partition}

-- The rounds over all same-files sets of a dictionary lose no episode: whatever a flagged public url
-- of a set carried before the first round, some flagged public url of that set carries after the
-- last one. The keys of the dictionary and of each group are distinct, as in any Python dict.
pub rounds-lossless :
    (d : SeadexDict) (names : List Text) (rg url : Text) (u : UrlItem) (key : ParsedKey)
    → unique (keys d) ≡ true
    → HasUrlKeys d
    → Memᴰ names (get_same_files_groups d)
    → Memᴰ rg names
    → url_at rg url d ≡ some u
    → Carries u key
    → contains key
        (survivor_keys names (fold reduce_step (d, no_skips) (get_same_files_groups d)).0)
      ≡ true
rounds-lossless d names rg url u key k h n m e c =
    loop-lossless (get_same_files_groups d) (d, no_skips) names rg url u key
      (get_same_files_groups-partition d rg k).0 h n m e c
