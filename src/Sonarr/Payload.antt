-- ===== src/Sonarr/Payload.antt =====
-- pearlarr/sonarr_import.py: what an import posts. The decisions of the plan become payload files, or are missing or
-- without a series. What Sonarr answers, the settings and the quality that a file name spells are fields of a record;
-- `str.upper` is exact on ASCII.
use pearlarr.Base.{
  ℕ, ◌-◌, Bool, false, ◌&&◌, Option, none, some, List, [], ◌∷◌, ◌++◌, if◌then◌else◌, Dict, get,
  is_empty, map, leb, nat_eq, list_eq,
}
use pearlarr.Text.{Text}
use pearlarr.Probe.Commands.{CommandResource, ContentPaths}
use pearlarr.Probe.History.{HistoryImport, DownloadHistoryVerdict}
use pearlarr.Imports.Names.{path_leaf}
use pearlarr.Imports.Record.{PendingImport, series_ids}
use pearlarr.Episodes.Routes.{RecordSnapshot, route}
use pearlarr.Sonarr.Files.{
  ManualImportCandidate, CandidateFile, ImportAction, action_import, action_skip_done,
  action_sample, action_already, action_missing, ImportDecision,
}
use pearlarr.Sonarr.Quality.{
  QualityModel, QualityDefinition, ParsedQuality, quality_axes_from_model, quality_axes_from_name,
  resolve_quality, Language,
}

pub record CandidateScan : Type 0 where
  pub candidates : List ManualImportCandidate
  pub history : Option DownloadHistoryVerdict
  pub import_rows : List HistoryImport
  pub by_id : Bool

abbrev pub is_dead : Option DownloadHistoryVerdict → Bool
is_dead none = false
is_dead (some verdict) = verdict.dead_tracked

-- `_CandidateScan.omit_download_id`
unfoldable pub omit_download_id : CandidateScan → Bool
omit_download_id scan = is_dead scan.history

pub record PollReading : Type 0 where
  pub scan : CandidateScan
  pub snapshot : RecordSnapshot
  pub baseline : List CommandResource
  pub at_deadline : Bool

pub record ManualImportFile : Type 0 where
  pub path : Text
  pub series_id : ℕ
  pub episode_ids : List ℕ
  pub release_group : Text
  pub languages : List Language
  pub quality : QualityModel
  pub download_id : Option Text

-- what the executor reads and what Sonarr answers it
pub record Executor : Type 0 where
  pub commands : Option (List CommandResource)
  pub is_own_command : ℕ → Bool
  pub content_paths : ContentPaths
  pub import_mode : Text
  pub languages : List Language
  pub quality_defs : List QualityDefinition
  pub filename_quality : Text → ParsedQuality
  pub default_quality : Option Text
  pub execute : List ManualImportFile → Text → Option ℕ

-- `str.upper`
abbrev pub upper : Text → Text
upper s = map {A = ℕ} {B = ℕ} (λ c. if leb 97 c && leb c 122 then c - 32 else c) s

-- the one element of a list of one
abbrev pub lone : List ℕ → Option ℕ
lone [] = none
lone (a ∷ []) = some a
lone (a ∷ b ∷ rest) = none

abbrev pub or_lone : Option ℕ → List ℕ → Option ℕ
or_lone (some a) ids = some a
or_lone none ids = lone ids

-- `_ImportContext.posting_series`
unfoldable pub posting_series : PendingImport → RecordSnapshot → ℕ → Option ℕ
posting_series p snapshot ep_id = or_lone (route snapshot ep_id).series_id (series_ids p)

-- the leaf of a candidate's path; the names come from the candidates
unfoldable pub leaf_of : Option CandidateFile → List Text
leaf_of none = []
leaf_of (some c) = path_leaf c.path ∷ []

-- `_ImportContext.leaves`
unfoldable pub leaves_of : Dict Text CandidateFile → List Text → List Text
leaves_of by_basename [] = []
leaves_of by_basename (name ∷ names) = leaf_of (get name by_basename) ++ leaves_of by_basename names

-- `decision.path or decision.basename`
unfoldable pub posted_path : Option Text → Text → Text
posted_path none basename = basename
posted_path (some path) basename = if is_empty path then basename else path

-- the series of a decision's first episode
unfoldable pub decision_series : PendingImport → RecordSnapshot → List ℕ → Option ℕ
decision_series p snapshot [] = none
decision_series p snapshot (ep_id ∷ ids) = posting_series p snapshot ep_id

-- the decisions by what becomes of them
pub record Routed : Type 0 where
  pub files : List ManualImportFile
  pub missing : List Text
  pub unrouted : List Text

module _ (x : Executor) (p : PendingImport) where
  -- `_build_file_entry`
  unfoldable pub build_file_entry : ImportDecision → CandidateScan → ℕ → ManualImportFile
  build_file_entry decision scan series_id =
      let path = posted_path decision.path decision.basename in
      record {
        path = path;
        series_id = series_id;
        episode_ids = decision.episode_ids;
        release_group = p.release_group;
        languages = x.languages;
        quality =
            resolve_quality (quality_axes_from_model decision.quality)
              (x.filename_quality (path_leaf path))
              (quality_axes_from_name x.default_quality x.quality_defs) x.quality_defs
              decision.quality;
        download_id = if omit_download_id scan then none else some (upper p.infohash);
      }

  unfoldable pub route_import : CandidateScan → ImportDecision → Option ℕ → Routed → Routed
  route_import scan decision none routed = record routed {
    unrouted = decision.basename ∷ routed.unrouted;
  }
  route_import scan decision (some series_id) routed = record routed {
    files = build_file_entry decision scan series_id ∷ routed.files;
  }

  -- the loop over the decisions, from its end
  unfoldable pub route_decision : PollReading → ImportDecision → ImportAction → Routed → Routed
  route_decision reading decision action_missing routed = record routed {
    missing = decision.basename ∷ routed.missing;
  }
  route_decision reading decision action_import routed =
      route_import reading.scan decision (decision_series p reading.snapshot decision.episode_ids)
        routed
  route_decision reading decision action_skip_done routed = routed
  route_decision reading decision action_sample routed = routed
  route_decision reading decision action_already routed = routed

  unfoldable pub route_decisions : PollReading → List ImportDecision → Routed
  route_decisions reading [] = record { files = []; missing = []; unrouted = [] }
  route_decisions reading (decision ∷ decisions) =
      route_decision reading decision decision.action (route_decisions reading decisions)
