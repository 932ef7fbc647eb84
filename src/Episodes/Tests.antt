-- ===== src/Episodes/Tests.antt =====
-- Two targets of a record, one with the recommended file, and the policy and the route that judge them.

use pearlarr.Base.{
  ℕ, true, false, ◌≡◌, refl, none, some, [], ◌∷◌, Memᴰ, Option, get, contains, nat_eq, list_eq,
  ◌==◌, if◌then◌else◌,
}
use pearlarr.Text.{text, casefold, strip, normalize_group, normalize_rg}
use pearlarr.Planner.Types.{no_guards}
use pearlarr.Imports.Record.{EntryClaim, admits}
use pearlarr.Episodes.Statuses.{
  TargetJudgment, judged, import_ids, all_done, filled_by_hand, recommended, other_group,
  is_recommended,
}
use pearlarr.Episodes.Snapshot.{GroupVotes, trusted_groups}
use pearlarr.Episodes.Routes.{RecordSnapshot, route, route_from}
use pearlarr.Episodes.Judged.{contains-import_ids, judged-done, judgment, needs_import}
use pearlarr.Episodes.Trust.{trusted_groups-own, shared_sizes}
use pearlarr.Episodes.Routed.{route-admits}

-- episode 11 has the recommended file, the others one of another group
abbrev sample_judge : ℕ → Option ℕ → TargetJudgment
sample_judge ep_id size =
    if ep_id == 11
    then record { status = recommended; own_copy = false; untagged_copy = false }
    else record { status = other_group; own_copy = false; untagged_copy = true }

contains-import_ids_example :
    contains 11 (import_ids (judged (11 ∷ 12 ∷ []) [] sample_judge) (11 ∷ 12 ∷ [])) ≡ false
unfolding needs_import judgment is_recommended
contains-import_ids_example = contains-import_ids (11 ∷ 12 ∷ []) [] sample_judge (11 ∷ 12 ∷ []) 11

judged-done_example :
    (all_done (judged (11 ∷ 12 ∷ []) [] sample_judge) ≡ false)
    × (filled_by_hand (judged (11 ∷ 12 ∷ []) [] sample_judge) ≡ true)
unfolding judgment is_recommended
judged-done_example = judged-done (11 ∷ 12 ∷ []) [] sample_judge

abbrev sample_votes : GroupVotes
sample_votes = record {
  own = record { release_group = text "Grp"; sizes = 5 ∷ [] };
  siblings = record { release_group = text "grp"; sizes = 6 ∷ [] } ∷ [];
}

trusted_groups-own_example :
    get (text "grp") (trusted_groups no_guards sample_votes) ≡ some (some (5 ∷ 6 ∷ []))
unfolding normalize_rg normalize_group casefold strip shared_sizes
trusted_groups-own_example =
    trusted_groups-own no_guards sample_votes (text "grp") (text "grp") refl refl

abbrev sample_claim : EntryClaim
sample_claim = record {
  al_id = 7;
  series_id = 3;
  title = none;
  coverage = none;
  url = none;
  ordered_episode_ids = 11 ∷ 12 ∷ [];
  names = record { series = []; anilist = [] };
  preowned_episode_ids = [];
  slice_coverage = none;
  claimed_at = [];
  guards = no_guards;
}

abbrev sample_snapshot : RecordSnapshot
sample_snapshot = record {
  pending = record {
    infohash = text "aa";
    release_group = [];
    is_dual_audio = false;
    seadex_files = [];
    added_at = [];
    file_episode_map = [];
    claims = sample_claim ∷ [];
    excluded_files = [];
    release_sizes = [];
    awaiting_cleanup = false;
    sizes_by_name = [];
    hand_import_files = [];
  };
  by_series = [];
  by_claim = [];
}

route-admits_example :
    Memᴰ sample_claim (sample_claim ∷ [])
    × ((route sample_snapshot 12).series_id ≡ some 3)
    × (admits sample_claim 12 ≡ true)
unfolding route route_from
route-admits_example = route-admits sample_snapshot 12 sample_claim refl
