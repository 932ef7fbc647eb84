-- ===== src/Sonarr/Files.antt =====
-- pearlarr/import_files.py: the import plan of the files on disk.
use pearlarr.Base.{
  ℕ, ◌-◌, Bool, false, not, ◌&&◌, Option, none, some, List, [], ◌∷◌, ◌++◌, if◌then◌else◌, Dict, get,
  put, keys, contains, select, any, is_empty, length, fromkeys, fold, map, nat_eq, list_eq,
}
use pearlarr.Text.{Text, text, casefold}
use pearlarr.Imports.Names.{path_leaf, normalized_leaf}
use pearlarr.Imports.Maps.{FileEpisodeMap}
use pearlarr.Imports.Record.{PendingImport, without}
use pearlarr.Episodes.Statuses.{TargetStatuses, import_ids}
use pearlarr.Sonarr.Videos.{is_infix, is_video_candidate}
use pearlarr.Sonarr.Quality.{QualityModel}

abbrev already_imported_tokens : List Text
already_imported_tokens = text "already" ∷ text "exist" ∷ []

abbrev sample_tokens : List Text
sample_tokens = text "sample" ∷ []

-- `ManualImportCandidate`, a rejection by its reason
pub record ManualImportCandidate : Type 0 where
  pub path : Option Text
  pub quality : Option QualityModel
  pub rejections : List (Option Text)

pub record CandidateFile : Type 0 where
  pub basename : Text
  pub path : Text
  pub quality : Option QualityModel
  pub is_sample : Bool
  pub is_already_imported : Bool

-- one reason of `_rejection_matches`
unfoldable pub reason_matches : List Text → Option Text → Bool
reason_matches tokens none = false
reason_matches tokens (some reason) =
    not (is_empty reason) && any (λ token. is_infix token (casefold reason)) tokens

unfoldable pub rejection_matches : ManualImportCandidate → List Text → Bool
rejection_matches candidate tokens = any (reason_matches tokens) candidate.rejections

-- `not path`
abbrev pub path_text : Option Text → Text
path_text none = []
path_text (some path) = path

module _ (nfc : Text → Text) where
  -- one candidate of the loop
  unfoldable pub add_candidate :
      Dict Text CandidateFile → ManualImportCandidate → Dict Text CandidateFile
  add_candidate by_basename candidate =
      let path = path_text candidate.path in
      let base = normalized_leaf nfc path in
      if is_empty path
      then by_basename
      else put base
          (record {
            basename = base;
            path = path;
            quality = candidate.quality;
            is_sample = rejection_matches candidate sample_tokens;
            is_already_imported = rejection_matches candidate already_imported_tokens;
          })
          by_basename

  unfoldable pub candidate_files : List ManualImportCandidate → Dict Text CandidateFile
  candidate_files candidates = fold add_candidate [] candidates

pub record DiskLeftover : Type 0 where
  pub names : List Text
  pub reported : List Text
  pub hand_import_files : List Text

unfoldable pub quiet : DiskLeftover → ℕ
quiet l = length l.names - length l.reported

unfoldable pub skips : DiskLeftover → List Text
skips l = without l.hand_import_files l.reported

unfoldable pub left_unmatched : DiskLeftover → List Text
left_unmatched l = if is_empty l.reported then l.names else l.reported

-- the names of the video files among the candidates
unfoldable pub video_names : Dict Text CandidateFile → List Text
video_names [] = []
video_names ((name, c) ∷ d) =
    let rest = video_names d in if is_video_candidate (path_leaf c.path) then name ∷ rest else rest

module _ (nfc : Text → Text) where
  unfoldable pub disk_leftover :
      PendingImport → Dict Text CandidateFile → FileEpisodeMap → DiskLeftover
  disk_leftover pending by_basename mapped =
      let video = video_names by_basename in
      let listed =
        fromkeys
          (select (λ name. contains name video) (map (normalized_leaf nfc) pending.seadex_files)) in
      let ordered =
        listed
        ++ select (λ name. contains name video && not (contains name listed)) (keys by_basename) in
      let names = without (keys mapped) ordered in
      let reported = without pending.excluded_files names in
      record {
        names = names;
        reported = reported;
        hand_import_files = select (λ name. contains name pending.hand_import_files) reported;
      }

pub data ImportAction : Type 0 where
  action_import action_skip_done action_sample action_already action_missing : ImportAction

pub record ImportDecision : Type 0 where
  pub basename : Text
  pub action : ImportAction
  pub path : Option Text
  pub quality : Option QualityModel
  pub episode_ids : List ℕ

-- the decision on a mapped file that is on disk
unfoldable pub decide_candidate : TargetStatuses → Text → List ℕ → CandidateFile → ImportDecision
decide_candidate statuses basename ep_ids candidate =
    let ids = import_ids statuses ep_ids in
    if candidate.is_sample
    then record {
      basename = basename;
      action = action_sample;
      path = some candidate.path;
      quality = none;
      episode_ids = [];
    }
    else if is_empty ids
    then record {
      basename = basename;
      action = if candidate.is_already_imported then action_already else action_skip_done;
      path = some candidate.path;
      quality = none;
      episode_ids = ep_ids;
    }
    else record {
      basename = basename;
      action = action_import;
      path = some candidate.path;
      quality = candidate.quality;
      episode_ids = ids;
    }

unfoldable pub decide : TargetStatuses → Text → List ℕ → Option CandidateFile → ImportDecision
decide statuses basename ep_ids none = record {
  basename = basename;
  action = action_missing;
  path = none;
  quality = none;
  episode_ids = ep_ids;
}
decide statuses basename ep_ids (some candidate) =
    decide_candidate statuses basename ep_ids candidate

unfoldable pub plan_import_files :
    FileEpisodeMap → Dict Text CandidateFile → TargetStatuses → List ImportDecision
plan_import_files [] by_basename statuses = []
plan_import_files ((basename, ep_ids) ∷ mapped) by_basename statuses =
    decide statuses basename ep_ids (get basename by_basename)
    ∷ plan_import_files mapped by_basename statuses
