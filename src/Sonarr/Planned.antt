-- ===== src/Sonarr/Planned.antt =====
-- What the import plan and the quality of an import come to.
use pearlarr.Base.{
  ℕ, Bool, true, false, Option, none, some, List, [], ◌∷◌, ◌≡◌, refl, ◌++◌, ◌&&◌, not, Bool-cases,
  inl, inr, Dict, get, keys, map, is_empty, is_some, if◌then◌else◌, if_ind, nat_eq, list_eq,
}
use pearlarr.Text.{Text}
use pearlarr.Imports.Maps.{FileEpisodeMap}
use pearlarr.Episodes.Statuses.{TargetStatuses, import_ids}
use pearlarr.Sonarr.Files.{
  CandidateFile, ImportAction, action_import, ImportDecision, decide_candidate, decide,
  plan_import_files,
}
use pearlarr.Sonarr.Quality.{
  SonarrQuality, QualityModel, QualityDefinition, ParsedQuality, fallback_model, model_of,
  resolve_quality,
}

unfoldable pub is_import : ImportAction → Bool
is_import action_import = true
is_import _ = false

-- A file on disk that is no sample, with an id that needs it, goes by its path onto the ids that the statuses pick.
abbrev pub intended_import :
    TargetStatuses → Text → List ℕ → Option CandidateFile → List (Text × Option Text × List ℕ)
intended_import statuses basename ep_ids none = []
intended_import statuses basename ep_ids (some c) =
    let ids = import_ids statuses ep_ids in
    if not c.is_sample && not (is_empty ids) then (basename, some c.path, ids) ∷ [] else []

-- the imports that a map calls for, in its order
abbrev pub intended_imports :
    FileEpisodeMap → Dict Text CandidateFile → TargetStatuses → List (Text × Option Text × List ℕ)
intended_imports [] files statuses = []
intended_imports ((name, ep_ids) ∷ mapped) files statuses =
    intended_import statuses name ep_ids (get name files) ++ intended_imports mapped files statuses

-- what a decision posts, if it imports
abbrev pub posted_import : ImportDecision → List (Text × Option Text × List ℕ)
posted_import d = if is_import d.action then (d.basename, d.path, d.episode_ids) ∷ [] else []

abbrev pub posted_imports : List ImportDecision → List (Text × Option Text × List ℕ)
posted_imports [] = []
posted_imports (d ∷ ds) = posted_import d ++ posted_imports ds

basename-decide :
    (statuses : TargetStatuses) (basename : Text) (ep_ids : List ℕ)
    (candidate : Option CandidateFile)
    → (decide statuses basename ep_ids candidate).basename ≡ basename
unfolding decide decide_candidate
basename-decide statuses basename ep_ids none = refl
basename-decide statuses basename ep_ids (some c) =
    if_ind (λ (d : ImportDecision). d.basename ≡ basename) c.is_sample (λ _. refl)
      (λ _.
        if_ind (λ (d : ImportDecision). d.basename ≡ basename)
          (is_empty (import_ids statuses ep_ids)) (λ _. refl) (λ _. refl))

basenames-plan_import_files :
    (mapped : FileEpisodeMap) (files : Dict Text CandidateFile) (statuses : TargetStatuses)
    → map (λ (d : ImportDecision). d.basename) (plan_import_files mapped files statuses)
      ≡ keys mapped
unfolding plan_import_files
basenames-plan_import_files [] files statuses = refl
basenames-plan_import_files ((name, ids) ∷ mapped) files statuses =
    rw
      (
        basename-decide statuses name ids (get name files),
        basenames-plan_import_files mapped files statuses,
      )
      refl

posted_import-decide_candidate :
    (statuses : TargetStatuses) (basename : Text) (ep_ids : List ℕ) (c : CandidateFile)
    → posted_import (decide_candidate statuses basename ep_ids c)
      ≡ intended_import statuses basename ep_ids (some c)
unfolding decide_candidate is_import
posted_import-decide_candidate statuses basename ep_ids c = elim (Bool-cases c.is_sample) [
  | inl s ↦ rw s refl
  | inr s ↦ elim (Bool-cases (is_empty (import_ids statuses ep_ids))) [
    | inr e ↦ rw (s, e) refl
    | inl e ↦ elim (Bool-cases c.is_already_imported) [
      | inl a ↦ rw (s, e, a) refl
      | inr a ↦ rw (s, e, a) refl
    ]
  ]
]

posted_import-decide :
    (statuses : TargetStatuses) (basename : Text) (ep_ids : List ℕ)
    (candidate : Option CandidateFile)
    → posted_import (decide statuses basename ep_ids candidate)
      ≡ intended_import statuses basename ep_ids candidate
unfolding decide is_import
posted_import-decide statuses basename ep_ids none = refl
posted_import-decide statuses basename ep_ids (some c) =
    posted_import-decide_candidate statuses basename ep_ids c

posted_imports-plan_import_files :
    (mapped : FileEpisodeMap) (files : Dict Text CandidateFile) (statuses : TargetStatuses)
    → posted_imports (plan_import_files mapped files statuses)
      ≡ intended_imports mapped files statuses
unfolding plan_import_files
posted_imports-plan_import_files [] files statuses = refl
posted_imports-plan_import_files ((name, ids) ∷ mapped) files statuses =
    rw
      (
        posted_import-decide statuses name ids (get name files),
        posted_imports-plan_import_files mapped files statuses,
      )
      refl

-- The plan has one decision for each mapped file, in the order of the map, and its imports are, in that order, those
-- of the mapped files that are on disk, are no sample and have an id that the statuses pick: each goes by the path on
-- disk onto the picked ids of its own map entry.
pub plan_import_files-imports :
    (mapped : FileEpisodeMap) (files : Dict Text CandidateFile) (statuses : TargetStatuses)
    → (map (λ (d : ImportDecision). d.basename) (plan_import_files mapped files statuses)
        ≡ keys mapped)
      × (posted_imports (plan_import_files mapped files statuses)
          ≡ intended_imports mapped files statuses)
plan_import_files-imports mapped files statuses = (
  basenames-plan_import_files mapped files statuses,
  posted_imports-plan_import_files mapped files statuses,
)

sent :
    (quality : Option SonarrQuality) (candidate : Option QualityModel)
    → is_some (model_of quality candidate).quality ≡ true
unfolding model_of fallback_model
sent (some quality) candidate = refl
sent none none = refl
sent none (some model) =
    if_ind (λ (r : QualityModel). is_some r.quality ≡ true) (is_some model.quality) (λ h. h)
      (λ _. refl)

-- The quality of an import is never left out, whatever Sonarr, the file name and the settings say.
pub resolve_quality-sends :
    (sonarr ours default : ParsedQuality) (defs : List QualityDefinition)
    (candidate : Option QualityModel)
    → is_some (resolve_quality sonarr ours default defs candidate).quality ≡ true
unfolding resolve_quality
resolve_quality-sends sonarr ours default defs candidate = sent _ candidate
