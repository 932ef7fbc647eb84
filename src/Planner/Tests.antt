-- ===== src/Planner/Tests.antt =====
-- The matchers and the plan of one small dictionary.
use pearlarr.Base.{
  ℕ, ◌≤◌, true, false, ◌≡◌, ◌↔◌, ◌&&◌, none, some, [], ◌∷◌, contains, any, all, is_empty,
  occurrences, ◌==◌, nat_eq, list_eq, option_eq,
}
use pearlarr.Text.{text, normalize_rg}
use pearlarr.Releases.{ArrReleases, SeadexDict, UrlItem}
use pearlarr.Planner.Ownership.{owns_untagged_copy, untagged_counter}
use pearlarr.Planner.Ownership.Copies.{owns_untagged_copy_iff}
use pearlarr.Planner.Match.{MatchContext, match_url}
use pearlarr.Planner.Match.Flags.{Raised, match_url-Raised}
use pearlarr.Planner.Match.Verdicts.{group_verdicts}
use pearlarr.Planner.Match.Verdicts.Cover.{files_on_disk}
use pearlarr.Planner.Match.Verdicts.Evidence.{
  lists_size, lists_any, is_outdated, contains-group_verdicts,
}
use pearlarr.Planner.Plan.{DownloadPlanner, match_context, infohashes, plan}
use pearlarr.Planner.Reduce.Shape.{without_flags}
use pearlarr.Planner.Plan.Shape.{without_flags-plan}
use pearlarr.Planner.Plan.Hashes.{contains-plan}

owns_untagged_copy_iff_example :
    (owns_untagged_copy (untagged_counter (5 ∷ 6 ∷ [])) (5 ∷ 5 ∷ 6 ∷ []) ≡ true) ↔ (
      (is_empty {A = ℕ} (5 ∷ 6 ∷ []) ≡ false)
      × (any {A = ℕ} (λ s. s == 0) (5 ∷ 6 ∷ []) ≡ false)
      × ((a : ℕ) → occurrences a (5 ∷ 6 ∷ []) ≤ occurrences a (5 ∷ 5 ∷ 6 ∷ [])))
owns_untagged_copy_iff_example = owns_untagged_copy_iff (5 ∷ 6 ∷ []) (5 ∷ 5 ∷ 6 ∷ [])

abbrev stale_url : UrlItem
stale_url = record {
  url = text "u";
  files = text "ep" ∷ [];
  size = 700 ∷ [];
  tracker = text "Nyaa";
  is_public = true;
  is_dual_audio = false;
  infohash = some (text "aa");
  download = false;
  is_fallback = false;
  upgrade = false;
  episodes = [];
  hold = none;
  hold_counts = record { elsewhere = 0; unplaced = 0 };
}

abbrev one_group : SeadexDict
one_group =
    (text "g", record { urls = (text "u", stale_url) ∷ []; tags = []; all_episodes = none }) ∷ []

abbrev held_files : ArrReleases
held_files = record { tagged = (text "g", 600 ∷ []) ∷ []; untagged = [] }

abbrev one_context : MatchContext
one_context = match_context one_group held_files none

abbrev by_groups : DownloadPlanner
by_groups = record { interactive = false; use_torrent_hash_to_filter = false }

match_url-Raised_example : Raised stale_url (match_url one_context (text "g") stale_url)
match_url-Raised_example = match_url-Raised one_context (text "g") stale_url

contains-group_verdicts_example :
    (contains (text "g") (group_verdicts one_group one_context).current_groups
      ≡ all
          (lists_size one_group (normalize_rg (some (text "g"))))
          (files_on_disk one_context (normalize_rg (some (text "g")))))
    × (contains (text "g") (group_verdicts one_group one_context).stale_groups ≡ (
        lists_any one_group (normalize_rg (some (text "g")))
        && any
            (is_outdated one_group (normalize_rg (some (text "g"))))
            (files_on_disk one_context (normalize_rg (some (text "g"))))))
contains-group_verdicts_example = contains-group_verdicts one_group one_context (text "g")

without_flags-plan_example :
    without_flags (plan by_groups one_group held_files (some (text "aa") ∷ []) none).seadex_dict
    ≡ without_flags one_group
without_flags-plan_example =
    without_flags-plan by_groups one_group held_files (some (text "aa") ∷ []) none

contains-plan_example :
    contains
      (some (text "bb"))
      (plan
        (record { interactive = false; use_torrent_hash_to_filter = true })
        one_group
        held_files
        []
        none).torrent_hashes
    ≡ false
unfolding infohashes
contains-plan_example =
    contains-plan (record { interactive = false; use_torrent_hash_to_filter = true }) one_group
      held_files [] none (some (text "bb"))
