-- ===== src/Imports/Folded.antt =====
-- The names of a folded record: mapped, excluded, left for a hand import, or unplaced.
use pearlarr.Base.{
  true, not, ◌&&◌, ◌||◌, List, [], ◌∷◌, ◌++◌, ◌≡◌, refl, sym, ◌∙◌, nat_eq, list_eq, contains,
  contains-select, contains-fromkeys, contains-append, keys, subset, subset-contains,
  subset_of_contains, is_empty, Bool-cases, inl, inr, arith,
}
use pearlarr.Text.{Text}
use pearlarr.Imports.Maps.{normalized_names}
use pearlarr.Imports.Record.{
  PendingImport, without, normalized_names_in_order, folded_record, seed_coverage, unplaced_names,
}

contains-without :
    (name : Text) (taken names : List Text)
    → contains name (without taken names) ≡ (not (contains name taken) && contains name names)
contains-without name taken names = contains-select (λ n. not (contains n taken)) name names

contains-normalized_names_in_order :
    (nfc : Text → Text) (name : Text) (names : List Text)
    → contains name (normalized_names_in_order nfc names)
      ≡ contains name (normalized_names nfc names)
unfolding normalized_names_in_order
contains-normalized_names_in_order nfc name names =
    contains-fromkeys name (normalized_names nfc names)

-- In a folded record no name is two of mapped, left for a hand import and excluded, and no name that was
-- one of the last two is lost: a mapped name is only mapped, and a name of both lists is left for a hand
-- import.
pub folded_record-partition :
    (nfc : Text → Text) (p : PendingImport) (name : Text)
    → (let folded = folded_record nfc p in
        (contains name folded.hand_import_files ≡ (
          contains name (normalized_names nfc p.hand_import_files)
          && not (contains name (keys folded.file_episode_map))))
        × (contains name folded.excluded_files ≡ (
            contains name (normalized_names nfc p.excluded_files)
            && not (contains name (keys folded.file_episode_map))
            && not (contains name folded.hand_import_files))))
unfolding folded_record
folded_record-partition nfc p name =
    let folded = folded_record nfc p in
    let mapped = keys folded.file_episode_map in
    (
      contains-without name mapped (normalized_names_in_order nfc p.hand_import_files)
          ∙ ground (arith, contains-normalized_names_in_order nfc name p.hand_import_files),
      contains-without name folded.hand_import_files
            (without mapped (normalized_names_in_order nfc p.excluded_files))
          ∙ ground (
            arith,
            contains-without name mapped (normalized_names_in_order nfc p.excluded_files),
            contains-normalized_names_in_order nfc name p.excluded_files,
          ),
    )

contains-unplaced_names :
    (nfc : Text → Text) (p : PendingImport) (name : Text)
    → contains name (unplaced_names nfc p) ≡ (
        contains name (normalized_names nfc p.seadex_files)
        && not (contains name (keys p.file_episode_map))
        && not (contains name p.excluded_files))
unfolding unplaced_names
contains-unplaced_names nfc p name =
    contains-without name p.excluded_files
      (without (keys p.file_episode_map) (normalized_names nfc p.seadex_files))
    ∙ ground (
      arith,
      contains-without name (keys p.file_episode_map) (normalized_names nfc p.seadex_files),
    )

is_empty-without :
    (mapped excluded names : List Text)
    → is_empty (without excluded (without mapped names)) ≡ subset names (mapped ++ excluded)
is_empty-without mapped excluded [] = refl
is_empty-without mapped excluded (name ∷ names) =
    ground (arith, is_empty-without mapped excluded names, contains-append name mapped excluded)

subset-append :
    (names mapped excluded : List Text)
    → subset names mapped ≡ true
    → subset names (mapped ++ excluded) ≡ true
subset-append names mapped excluded h =
    subset_of_contains names (mapped ++ excluded)
      (λ a k. contains-append a mapped excluded ∙ rw (subset-contains a names mapped h k) refl)

-- A record accounts for its listing exactly when it lists a file and leaves no listed name unplaced; it maps the
-- whole listing exactly when it lists a file and every listed name is mapped; and a whole map accounts for it.
pub seed_coverage-unplaced :
    (nfc : Text → Text) (p : PendingImport)
    → (let seed = seed_coverage nfc p in
        let needed = normalized_names nfc p.seadex_files in
        (seed.accounted ≡ (not (is_empty needed) && is_empty (unplaced_names nfc p)))
        × (seed.mapped ≡ (not (is_empty needed) && subset needed (keys p.file_episode_map)))
        × ((not seed.mapped || seed.accounted) ≡ true))
unfolding seed_coverage unplaced_names
seed_coverage-unplaced nfc p =
    let needed = normalized_names nfc p.seadex_files in
    let mapped = keys p.file_episode_map in
    let unplaced = is_empty-without mapped p.excluded_files needed in
    elim (Bool-cases (is_empty needed)) [
      | inl h ↦ rw h (refl, refl, refl)
      | inr h ↦ elim (Bool-cases (subset needed mapped)) [
        | inl k ↦
            rw (h, k) (sym (unplaced ∙ subset-append needed mapped p.excluded_files k), refl, refl)
        | inr k ↦ rw (h, k) (sym unplaced, refl, refl)
      ]
    ]
