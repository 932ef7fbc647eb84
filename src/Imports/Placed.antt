-- ===== src/Imports/Placed.antt =====
-- The placements that the import history gives.
use pearlarr.Base.{
  ℕ, Bool, true, not, ◌&&◌, ◌||◌, Option, none, some, List, [], ◌∷◌, ◌≡◌, refl, sym, ap, ◌∙◌, inl,
  inr, ◌==◌, eq_of_==, nat_eq, list_eq, get, get_else, get-modify-set_default, get-map_values,
  contains, contains-distinct, contains-sorted, distinct, sorted, any, fold, map_values, modify,
  set_default, if_ind, Bool-cases, Option-cases, arith,
}
use mathlib.Core.Option
use pearlarr.Text.{Text}
use pearlarr.Probe.History.{HistoryImport}
use pearlarr.Imports.Names.{normalized_leaf}
use pearlarr.Imports.Maps.{FileEpisodeMap}
use pearlarr.Imports.Record.{PendingImport, unplaced_names}
use pearlarr.Imports.History.{claimed, history_step, placements_from_history}

-- The map places the episode at the name.
unfoldable pub places : FileEpisodeMap → Text → ℕ → Bool
places mapped name ep_id = contains ep_id (get_else name [] mapped)

-- The row says that the file of this name was imported as the episode, and the record still wants to place the
-- name and claims the row.
unfoldable pub row_places : (Text → Text) → PendingImport → Text → ℕ → HistoryImport → Bool
row_places nfc p name ep_id row =
    name == normalized_leaf nfc row.path
    && contains name (unplaced_names nfc p)
    && claimed p row
    && ep_id == row.episode_id

-- the id is one of those
abbrev holds : ℕ → Option (List ℕ) → Bool
holds ep_id o = contains ep_id (elim o as (λ _. List ℕ) [ none ↦ [] | some ids ↦ ids ])

places_placed :
    (name leaf : Text) (ep_id id : ℕ) (grouped : FileEpisodeMap)
    → places (modify leaf (λ ids. id ∷ ids) (set_default leaf [] grouped)) name ep_id
      ≡ ((name == leaf && ep_id == id) || places grouped name ep_id)
unfolding places
places_placed name leaf ep_id id grouped =
    let at_name = get-modify-set_default name leaf (λ ids. id ∷ ids) [] grouped in
    ap (holds ep_id) at_name
    ∙ (elim (Bool-cases (name == leaf)) [ inl h ↦ rw h refl | inr h ↦ rw h refl ])

places-sorted :
    (grouped : FileEpisodeMap) (name : Text) (ep_id : ℕ)
    → places (map_values (λ ids. sorted (distinct ids)) grouped) name ep_id
      ≡ places grouped name ep_id
unfolding places
places-sorted grouped name ep_id =
    let at_name = get-map_values name (λ ids. sorted (distinct ids)) grouped in
    ap (holds ep_id) at_name ∙ (elim (Option-cases (get name grouped)) [
      | inl h ↦
          ap (λ o. holds ep_id (Option.map (λ ids. sorted (distinct ids)) o)) h
          ∙ sym (ap (holds ep_id) h)
      | inr (ids, h) ↦
          ap (λ o. holds ep_id (Option.map (λ is. sorted (distinct is)) o)) h
          ∙ contains-sorted ep_id (distinct ids)
          ∙ contains-distinct ep_id ids
          ∙ sym (ap (holds ep_id) h)
    ])

module _ (nfc : Text → Text) (p : PendingImport) (name : Text) (ep_id : ℕ) where
  places-history_step :
      (grouped : FileEpisodeMap) (row : HistoryImport)
      → places (history_step nfc p grouped row) name ep_id
        ≡ (places grouped name ep_id || row_places nfc p name ep_id row)
  unfolding row_places history_step
  places-history_step grouped row =
      let leaf = normalized_leaf nfc row.path in
      let wanted = unplaced_names nfc p in
      let known : (name == leaf) ≡ true → contains name wanted ≡ contains leaf wanted =
        λ h. ap (λ n. contains n wanted) (eq_of_== name leaf h) in
      if_ind
        (λ (g : FileEpisodeMap).
          places g name ep_id ≡ (places grouped name ep_id || row_places nfc p name ep_id row))
        (not (contains leaf wanted)) (λ u. ground (arith, known))
        (λ u.
          if_ind
            (λ (g : FileEpisodeMap).
              places g name ep_id ≡ (places grouped name ep_id || row_places nfc p name ep_id row))
            (not (claimed p row)) (λ c. ground arith)
            (λ c. places_placed name leaf ep_id row.episode_id grouped ∙ ground (arith, known)))

  places-fold :
      (rows : List HistoryImport) (grouped : FileEpisodeMap)
      → places (fold (history_step nfc p) grouped rows) name ep_id
        ≡ (places grouped name ep_id || any (row_places nfc p name ep_id) rows)
  places-fold [] grouped = ground arith
  places-fold (row ∷ rows) grouped =
      places-fold rows (history_step nfc p grouped row)
      ∙ ground (arith, places-history_step grouped row)

  -- The history places an episode at a name exactly when some import row of that name and episode is one that a
  -- claim admits, and the record still wants to place the name: the seed map and the exclusions stay.
  pub places-placements_from_history :
      (rows : List HistoryImport)
      → places (placements_from_history nfc rows p) name ep_id
        ≡ any (row_places nfc p name ep_id) rows
  unfolding placements_from_history places
  places-placements_from_history rows =
      places-sorted (fold (history_step nfc p) [] rows) name ep_id ∙ places-fold rows []
