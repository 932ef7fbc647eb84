-- ===== src/Probe/Commands/Cover.antt =====
-- When a running import covers a download.

use pearlarr.Base.{
  ℕ, Bool, not, ◌&&◌, ◌||◌, ◌≡◌, refl, inl, inr, List, [], ◌∷◌, any, contains, is_empty, is_some,
  select, nat_eq, list_eq, arith, Bool-cases,
}
use pearlarr.Text.{casefold}
use pearlarr.Probe.Commands.{
  CommandResource, DownloadMatch, file_hashes, file_covers, import_of, first_import, with_status,
  has_status, manual_import_command_names, command_in_flight_states, sonarr_disk_command_names,
  manual_import_in_flight, in_flight_disk_commands, classify_commands,
}

-- A command covers the download: a file has its download id, or no file has one and one of them is
-- at the download's path or has one of its episodes.
abbrev pub covers : DownloadMatch → CommandResource → Bool
covers match c =
    contains (casefold match.infohash) (file_hashes c.files)
    || (is_empty (file_hashes c.files) && any (file_covers match) c.files)

abbrev pub is_running_import : CommandResource → Bool
is_running_import c = has_status manual_import_command_names command_in_flight_states c

is_some-import_of :
    (match : DownloadMatch) (c : CommandResource) → is_some (import_of match c) ≡ covers match c
unfolding import_of
is_some-import_of match c = ground arith

is_some-first_import :
    (match : DownloadMatch) (p : CommandResource → Bool) (cs : List CommandResource)
    → is_some (first_import match (select p cs)) ≡ any (λ c. p c && covers match c) cs
is_some-first_import match p [] = refl
is_some-first_import match p (c ∷ cs) = elim (Bool-cases (p c)) [
  | inl h ↦ ground (arith, h, is_some-import_of match c, is_some-first_import match p cs)
  | inr h ↦ ground (arith, h, is_some-first_import match p cs)
]

-- A download has an import in flight exactly when some queued or started ManualImport covers it.
pub manual_import_in_flight-covers :
    (commands : List CommandResource) (match : DownloadMatch)
    → is_some (manual_import_in_flight commands match)
      ≡ any (λ c. is_running_import c && covers match c) commands
unfolding manual_import_in_flight with_status
manual_import_in_flight-covers commands match =
    is_some-first_import match (has_status manual_import_command_names command_in_flight_states)
      commands

is_empty-select-any :
    (p : CommandResource → Bool) (cs : List CommandResource)
    → is_empty (select p cs) ≡ not (any p cs)
is_empty-select-any p [] = refl
is_empty-select-any p (c ∷ cs) = ground (arith, is_empty-select-any p cs)

-- Nothing holds a step-in exactly when no queued or started command covers the download as a
-- ManualImport or is a disk command.
pub classify_commands-clear :
    (commands : List CommandResource) (match : DownloadMatch) (is_own : ℕ → Bool)
    → is_some (classify_commands commands match is_own) ≡ (
        any (λ c. is_running_import c && covers match c) commands
        || any (has_status sonarr_disk_command_names command_in_flight_states) commands)
unfolding classify_commands in_flight_disk_commands with_status
classify_commands-clear commands match is_own = ground (
  arith,
  manual_import_in_flight-covers commands match,
  is_empty-select-any (has_status sonarr_disk_command_names command_in_flight_states) commands,
)
