-- ===== src/Sonarr/Tests.antt =====
-- Two mapped files, one on disk and one missing, and an import without a definition of its quality.

use pearlarr.Base.{true, false, ◌≡◌, none, some, [], ◌∷◌, Dict, map, nat_eq, list_eq}
use pearlarr.Text.{Text, text}
use pearlarr.Imports.Maps.{FileEpisodeMap}
use pearlarr.Episodes.Statuses.{TargetStatuses, import_ids, needing_import, is_recommended, absent}
use pearlarr.Sonarr.Files.{CandidateFile, ImportDecision, plan_import_files}
use pearlarr.Sonarr.Planned.{posted_imports, plan_import_files-imports}

abbrev sample_map : FileEpisodeMap
sample_map = (text "01.mkv", 11 ∷ []) ∷ (text "02.mkv", 12 ∷ []) ∷ []

abbrev sample_file : CandidateFile
sample_file = record {
  basename = text "02.mkv";
  path = text "/d/02.mkv";
  quality = none;
  is_sample = false;
  is_already_imported = true;
}

abbrev sample_files : Dict Text CandidateFile
sample_files = (text "02.mkv", sample_file) ∷ []

abbrev sample_statuses : TargetStatuses
sample_statuses = record {
  by_id = (11, absent) ∷ (12, absent) ∷ [];
  holding_own_copy = [];
  holding_untagged_copy = [];
}

plan_import_files-imports_example :
    (map
        (λ (e : ImportDecision). e.basename)
        (plan_import_files sample_map sample_files sample_statuses)
      ≡ text "01.mkv" ∷ text "02.mkv" ∷ [])
    × (posted_imports (plan_import_files sample_map sample_files sample_statuses)
        ≡ (text "02.mkv", some (text "/d/02.mkv"), 12 ∷ []) ∷ [])
unfolding import_ids needing_import is_recommended
plan_import_files-imports_example =
    plan_import_files-imports sample_map sample_files sample_statuses
