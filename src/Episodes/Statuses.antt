-- ===== src/Episodes/Statuses.antt =====
-- `EpisodeFileStatus`, `TargetJudgment` and `TargetStatuses`.
use pearlarr.Base.{
  ℕ, Bool, true, false, not, ◌&&◌, ◌||◌, Option, List, [], ◌∷◌, if◌then◌else◌, Dict, get, keys,
  map_values, contains, fromkeys, select, any, all, is_empty, nat_eq,
}

pub data FileStatus : Type 0 where
  absent recommended other_group unknown_group misplaced : FileStatus

unfoldable pub is_recommended : FileStatus → Bool
is_recommended recommended = true
is_recommended _ = false

pub record TargetJudgment : Type 0 where
  pub status : FileStatus
  pub own_copy : Bool
  pub untagged_copy : Bool

abbrev pub no_file : TargetJudgment
no_file = record { status = absent; own_copy = false; untagged_copy = false }

pub record TargetStatuses : Type 0 where
  pub by_id : Dict ℕ FileStatus
  pub holding_own_copy : List ℕ
  pub holding_untagged_copy : List ℕ

-- the judgment of each distinct target, in order
abbrev pub judgments : (ℕ → TargetJudgment) → List ℕ → Dict ℕ TargetJudgment
judgments judge [] = []
judgments judge (ep_id ∷ ids) = (ep_id, judge ep_id) ∷ judgments judge ids

-- `TargetStatuses.judged`
unfoldable pub judged : List ℕ → Dict ℕ ℕ → (ℕ → Option ℕ → TargetJudgment) → TargetStatuses
judged targets intended_sizes judge =
    let by_target =
      judgments (λ ep_id. judge ep_id (get ep_id intended_sizes)) (fromkeys targets) in
    record {
      by_id = map_values (λ (j : TargetJudgment). j.status) by_target;
      holding_own_copy = keys (select (λ e. e.1.own_copy) by_target);
      holding_untagged_copy = keys (select (λ e. e.1.untagged_copy) by_target);
    }

unfoldable pub all_done : TargetStatuses → Bool
all_done s = not (is_empty s.by_id) && all (λ e. is_recommended e.1) s.by_id

unfoldable pub filled_by_hand : TargetStatuses → Bool
filled_by_hand s =
    not (is_empty s.by_id)
    && all (λ e. is_recommended e.1 || contains e.0 s.holding_untagged_copy) s.by_id

unfoldable pub needing_import : TargetStatuses → List ℕ
needing_import s = keys (select (λ e. not (is_recommended e.1)) s.by_id)

unfoldable pub import_ids : TargetStatuses → List ℕ → List ℕ
import_ids s ep_ids =
    let needing = needing_import s in
    if not (any (λ ep_id. contains ep_id needing) ep_ids)
    then []
    else select (λ ep_id. contains ep_id needing || contains ep_id s.holding_own_copy) ep_ids
