-- ===== src/Probe/History/Cycle.antt =====
-- What `classify_download_history` decides by.
use mathlib.Core.List.{append-nil}
use pearlarr.Base.{
  any, Bool, true, false, not, ◌&&◌, ◌≡◌, refl, ap, sym, ◌∙◌, some, List, [], ◌∷◌, ◌++◌,
  if◌then◌else◌, all, is_some, arith,
}
use pearlarr.Probe.History.{
  HistoryRow, HistoryImport, is_grabbed, is_imported, dead_event, import_row, import_rows,
  classify_rows, DownloadHistoryVerdict, imported,
}

-- An event that decides nothing.
abbrev pub is_skipped : HistoryRow → Bool
is_skipped r = not (is_grabbed r) && not (is_some (dead_event r))

-- The rows that a list of records imports.
abbrev pub rows_of : List HistoryRow → List HistoryImport
rows_of [] = []
rows_of (r ∷ rs) = import_row r ++ rows_of rs

-- The records before the first event that decides change nothing.
pub classify_rows-skipped :
    (cut : Bool) (skipped rest : List HistoryRow)
    → all is_skipped skipped ≡ true
    → classify_rows cut (skipped ++ rest) ≡ classify_rows cut rest
unfolding classify_rows
classify_rows-skipped cut [] rest h = refl
classify_rows-skipped cut (r ∷ rs) rest h = ground (arith, h, classify_rows-skipped cut rs rest)

append_assoc_rows : (a b c : List HistoryImport) → (a ++ b) ++ c ≡ a ++ (b ++ c)
append_assoc_rows [] b c = refl
append_assoc_rows (x ∷ a) b c = ap (λ l. x ∷ l) (append_assoc_rows a b c)

rows-cycle :
    (cut : Bool) (cycle : List HistoryRow) (rows : List HistoryImport) (grab : HistoryRow)
    (older : List HistoryRow)
    → any is_grabbed cycle ≡ false
    → is_grabbed grab ≡ true
    → import_rows cut rows (cycle ++ (grab ∷ older)) ≡ rows ++ rows_of cycle
unfolding import_rows
rows-cycle cut [] rows grab older h g = rw g (sym (append-nil rows))
rows-cycle cut (r ∷ rs) rows grab older h g =
    let head : is_grabbed r ≡ false = ground arith in
    rw head (
      rows-cycle cut rs (rows ++ import_row r) grab older (ground arith) g
      ∙ append_assoc_rows rows (import_row r) (rows_of rs))

abbrev imported_at : HistoryRow → List HistoryImport → DownloadHistoryVerdict
imported_at r rows = record {
  dead_tracked = true;
  event = some imported;
  date = some r.date;
  import_rows = rows;
}

classify-imported :
    (cut : Bool) (r : HistoryRow) (rs : List HistoryRow)
    → is_grabbed r ≡ false
    → is_imported r ≡ true
    → classify_rows cut (r ∷ rs) ≡ imported_at r (import_rows cut [] (r ∷ rs))
unfolding classify_rows dead_event
classify-imported cut r rs h i =
    let all_rows : List HistoryImport = import_rows cut [] (r ∷ rs) in
    let kept : (if is_imported r then all_rows else []) ≡ all_rows = rw i refl in
    rw (h, i) (ap (imported_at r) kept)

-- A download whose newest deciding event is an import is dead, and carries the rows of the records
-- from that import down to the grab before it, whatever is older and whether or not the page is
-- cut; a row is one with a path and an episode.
pub classify_rows-cycle :
    (cut : Bool) (skipped : List HistoryRow) (newest : HistoryRow) (cycle : List HistoryRow)
    (grab : HistoryRow) (older : List HistoryRow)
    → all is_skipped skipped ≡ true
    → is_imported newest ≡ true
    → any is_grabbed (newest ∷ cycle) ≡ false
    → is_grabbed grab ≡ true
    → classify_rows cut (skipped ++ (newest ∷ (cycle ++ (grab ∷ older)))) ≡ record {
      dead_tracked = true;
      event = some imported;
      date = some newest.date;
      import_rows = rows_of (newest ∷ cycle);
    }
unfolding classify_rows dead_event
classify_rows-cycle cut skipped newest cycle grab older s i c g =
    classify_rows-skipped cut skipped (newest ∷ (cycle ++ (grab ∷ older))) s
    ∙ classify-imported cut newest (cycle ++ (grab ∷ older)) (ground arith) i
    ∙ ap (imported_at newest) (rows-cycle cut (newest ∷ cycle) [] grab older c g)
