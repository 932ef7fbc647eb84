-- ===== src/Probe/History.antt =====
-- `classify_download_history`: the newest event that decides, and the rows of its import.
pub mod Cycle
use pearlarr.Base.{
  ℕ, ◌<◌, Bool, true, false, not, ◌&&◌, ◌||◌, ◌≡◌, refl, ap, sym, ◌∙◌, Option, none, some, List, [],
  ◌∷◌, ◌++◌, ◌==◌, ltb, if◌then◌else◌, any, all, contains, is_empty, select, map, nat_eq, list_eq,
  length, arith,
}
use pearlarr.Text.{Text, text, casefold}

pub record HistoryRow : Type 0 where
  pub event_type : Text
  pub date : Text
  pub episode_id : ℕ
  pub item_id : ℕ
  pub dropped_path : Option Text

pub record HistoryPage : Type 0 where
  pub records : List HistoryRow
  pub total_records : ℕ

pub record HistoryImport : Type 0 where
  pub path : Text
  pub episode_id : ℕ
  pub series_id : ℕ

pub data DeadEvent : Type 0 where
  imported failed ignored : DeadEvent

pub record DownloadHistoryVerdict : Type 0 where
  pub dead_tracked : Bool
  pub event : Option DeadEvent
  pub date : Option Text
  pub import_rows : List HistoryImport

abbrev pub is_grabbed : HistoryRow → Bool
is_grabbed r = casefold r.event_type == text "grabbed"

abbrev pub is_imported : HistoryRow → Bool
is_imported r = casefold r.event_type == text "downloadfolderimported"

-- `_DEAD_TRACKED_HISTORY_EVENTS.get(event)`
unfoldable pub dead_event : HistoryRow → Option DeadEvent
dead_event r =
    let event = casefold r.event_type in
    if event == text "downloadfolderimported"
    then some imported
    else if event == text "downloadfailed"
    then some failed
    else if event == text "downloadignored"
    then some ignored
    else none

-- what a row adds to the import
unfoldable pub import_row : HistoryRow → List HistoryImport
import_row r = elim r.dropped_path [
  | none ↦ []
  | some path ↦
      if is_imported r && not (is_empty path) && not (r.episode_id == 0)
      then record { path = path; episode_id = r.episode_id; series_id = r.item_id } ∷ []
      else []
]

-- `_import_rows`, over the records from the import on; `cut` says that the page is cut
unfoldable pub import_rows : Bool → List HistoryImport → List HistoryRow → List HistoryImport
import_rows cut rows [] = if cut then [] else rows
import_rows cut rows (r ∷ rs) =
    let rest = import_rows cut (rows ++ import_row r) rs in if is_grabbed r then rows else rest

abbrev pub clean_verdict : DownloadHistoryVerdict
clean_verdict = record { dead_tracked = false; event = none; date = none; import_rows = [] }

-- the loop of `classify_download_history`
unfoldable pub classify_rows : Bool → List HistoryRow → DownloadHistoryVerdict
classify_rows cut [] = clean_verdict
classify_rows cut (r ∷ rs) =
    let rest = classify_rows cut rs in
    if is_grabbed r then clean_verdict else elim (dead_event r) [
      | none ↦ rest
      | some label ↦ record {
        dead_tracked = true;
        event = some label;
        date = some r.date;
        import_rows = if is_imported r then import_rows cut [] (r ∷ rs) else [];
      }
    ]

unfoldable pub classify_download_history : HistoryPage → DownloadHistoryVerdict
classify_download_history page =
    classify_rows (ltb (length page.records) page.total_records) page.records
