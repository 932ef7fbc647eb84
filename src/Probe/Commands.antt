-- ===== src/Probe/Commands.antt =====
-- The verdicts over Sonarr's command list. A moment is a number of seconds, and the reading of a
-- stamp (pearlarr/stamps.py, on Python's datetime) is a parameter.
pub mod Cover
use pearlarr.Base.{
  ℕ, ◌+◌, Bool, true, false, not, ◌&&◌, ◌||◌, Option, none, some, List, [], ◌∷◌, ◌==◌, leb,
  if◌then◌else◌, any, contains, is_empty, select, map, nat_eq, list_eq, pair_eq,
}
use pearlarr.Text.{Text, text, casefold}
use pearlarr.Probe.Queue.{folded}

pub record CommandFile : Type 0 where
  pub path : Option Text
  pub download_id : Option Text
  pub episode_ids : List ℕ

pub record CommandResource : Type 0 where
  pub id : ℕ
  pub status : Option Text
  pub name : Option Text
  pub started : Option ℕ
  pub files : List CommandFile

-- `path.replace("\\", "/")`
unfoldable pub fold_path_separators : Text → Text
fold_path_separators path = map (λ c. if c == 92 then 47 else c) path

-- `_norm_path`
unfoldable pub norm_path : Text → Text
unfolding fold_path_separators
norm_path path = casefold (fold_path_separators path)

-- `s.startswith(p)`, the prefix first
abbrev pub starts_with : Text → Text → Bool
starts_with [] s = true
starts_with (c ∷ p) [] = false
starts_with (c ∷ p) (d ∷ s) = (c == d) && starts_with p s

pub record ContentPaths : Type 0 where
  pub raw : Text
  pub sonarr_visible : Text

pub record DownloadMatch : Type 0 where
  pub infohash : Text
  pub content_paths : ContentPaths
  pub target_ep_ids : List ℕ

pub record InFlightImport : Type 0 where
  pub command : CommandResource
  pub by_download_id : Bool

abbrev pub manual_import_command_names : List Text
manual_import_command_names = text "manualimport" ∷ []

abbrev pub command_in_flight_states : List Text
command_in_flight_states = text "queued" ∷ text "started" ∷ []

abbrev pub rescan_command_names : List Text
rescan_command_names = text "refreshmonitoreddownloads" ∷ []

abbrev pub sonarr_disk_command_names : List Text
sonarr_disk_command_names =
    text "processmonitoreddownloads"
    ∷ text "downloadedepisodesscan"
    ∷ text "manualimport"
    ∷ text "renamefiles"
    ∷ text "renameseries"
    ∷ text "moveseries"
    ∷ text "bulkmoveseries"
    ∷ text "deleteseriesfiles"
    ∷ []

abbrev pub completed_states : List Text
completed_states = text "completed" ∷ []

abbrev pub rescan_proof_margin : ℕ
rescan_proof_margin = 60

-- the test of `_with_status`
abbrev pub has_status : List Text → List Text → CommandResource → Bool
has_status names statuses c = contains (folded c.name) names && contains (folded c.status) statuses

-- `_with_status`
unfoldable pub with_status : List CommandResource → List Text → List Text → List CommandResource
with_status commands names statuses = select (has_status names statuses) commands

-- the casefolded download ids of the files
unfoldable pub file_hashes : List CommandFile → List Text
file_hashes [] = []
file_hashes (f ∷ fs) = elim f.download_id [
  | none ↦ file_hashes fs
  | some h ↦ casefold h ∷ file_hashes fs
]

-- a file at one of the paths, or with one of the episodes
unfoldable pub file_covers : DownloadMatch → CommandFile → Bool
file_covers match f =
    let at_path = elim f.path as (λ _. Bool) [
      | none ↦ false
      | some path ↦
          starts_with (norm_path match.content_paths.raw) (norm_path path)
          || starts_with (norm_path match.content_paths.sonarr_visible) (norm_path path)
    ] in
    at_path || any (λ ep_id. contains ep_id match.target_ep_ids) f.episode_ids

-- one command of the loop
unfoldable pub import_of : DownloadMatch → CommandResource → Option InFlightImport
unfolding file_hashes file_covers
import_of match c =
    if contains (casefold match.infohash) (file_hashes c.files)
    then some (record { command = c; by_download_id = true })
    else if not (is_empty (file_hashes c.files))
    then none
    else if any (file_covers match) c.files
    then some (record { command = c; by_download_id = false })
    else none

abbrev pub first_import : DownloadMatch → List CommandResource → Option InFlightImport
first_import match [] = none
first_import match (c ∷ cs) =
    let rest = first_import match cs in elim (import_of match c) [ none ↦ rest | some i ↦ some i ]

unfoldable pub manual_import_in_flight :
    List CommandResource → DownloadMatch → Option InFlightImport
manual_import_in_flight commands match =
    first_import match (with_status commands manual_import_command_names command_in_flight_states)

unfoldable pub in_flight_disk_commands : List CommandResource → List CommandResource
in_flight_disk_commands commands =
    with_status commands sonarr_disk_command_names command_in_flight_states

unfoldable pub disk_commands_changed_since :
    List CommandResource → List CommandResource → List CommandResource
disk_commands_changed_since before after =
    let listed = map {B = ℕ × Text} (λ (c : CommandResource). (c.id, folded c.status)) before in
    select
      (λ c.
        contains (folded c.name) sonarr_disk_command_names
        && not (contains (c.id, folded c.status) listed))
      after

-- `_completed_rescans`
unfoldable pub completed_rescans : List CommandResource → List CommandResource
completed_rescans commands = with_status commands rescan_command_names completed_states

unfoldable pub sonarr_restarted : List CommandResource → Bool
sonarr_restarted commands = is_empty (completed_rescans commands)

abbrev pub started_from : ℕ → Option ℕ → Bool
started_from floor none = false
started_from floor (some t) = leb floor t

unfoldable pub rescanned_since_add : (Text → Option ℕ) → List CommandResource → Text → Bool
rescanned_since_add parse_stamp_aware commands added_at = elim (parse_stamp_aware added_at) [
  | none ↦ false
  | some added ↦
      any (λ c. started_from (added + rescan_proof_margin) c.started) (completed_rescans commands)
]

pub data CommandBlock : Type 0 where
  own_import in_flight_import disk_command disk_command_changed just_restarted : CommandBlock

pub data Deferral : Type 0 where
  not_deferred issued import_running busy : Deferral

unfoldable pub claims_import : CommandBlock → Bool
claims_import own_import = true
claims_import _ = false

unfoldable pub deferral : CommandBlock → Deferral
deferral own_import = import_running
deferral in_flight_import = import_running
deferral just_restarted = not_deferred
deferral _ = busy

unfoldable pub classify_commands :
    List CommandResource → DownloadMatch → (ℕ → Bool) → Option CommandBlock
classify_commands commands match is_own = elim (manual_import_in_flight commands match) [
  | some i ↦
      if i.by_download_id || is_own i.command.id then some own_import else some in_flight_import
  | none ↦ if is_empty (in_flight_disk_commands commands) then none else some disk_command
]
