-- ===== src/Planner/Types.antt =====
-- What the planner returns: `SkipNotice`, `PrivateOnlySkips`, `PlanResult` and the guard evidence
-- of pearlarr/manual_import.py that the result carries. Of the severities the planner uses two.
use pearlarr.Base.{ℕ, Bool, false, Option, List, []}
use pearlarr.Text.{Text}
use pearlarr.Releases.{SeadexDict}

pub data Severity : Type 0 where
  info warning : Severity

pub record SkipNotice : Type 0 where
  pub groups : List Text
  pub reason : Text
  pub severity : Severity

pub record PrivateOnlySkips : Type 0 where
  pub skipped : Bool
  pub groups : List Text
  pub notices : List SkipNotice
  pub stale_held : Bool
  pub fallback_covered : Bool

abbrev pub no_skips : PrivateOnlySkips
no_skips = record {
  skipped = false;
  groups = [];
  notices = [];
  stale_held = false;
  fallback_covered = false;
}

pub record OwnedEpisode : Type 0 where
  pub ep_id : ℕ
  pub size : ℕ

pub record GuardFacts : Type 0 where
  pub entry_groups : List Text
  pub stale_groups : List Text
  pub owned_episodes : List OwnedEpisode

abbrev pub no_guards : GuardFacts
no_guards = record { entry_groups = []; stale_groups = []; owned_episodes = [] }

pub record PlanResult : Type 0 where
  pub seadex_dict : SeadexDict
  pub torrent_hashes : List (Option Text)
  pub skips : PrivateOnlySkips
  pub guards : GuardFacts
