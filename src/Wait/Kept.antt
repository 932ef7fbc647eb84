-- ===== src/Wait/Kept.antt =====
-- What a poll, an outcome and a retire do to the stored rows.
use pearlarr.Base.{
  Bool, true, not, Option, none, some, ◌≡◌, refl, ◌∙◌, inl, inr, ◌==◌, nat_eq, list_eq, pair_eq,
  get, keys, contains, get-put, get-select_keys, if◌then◌else◌, if_ind, Bool-cases, arith,
}
use pearlarr.Text.{Text}
use pearlarr.Imports.Record.{PendingImport, folded_record}
use pearlarr.Imports.Stored.{RawRecord, to_json}
use pearlarr.Imports.Outcomes.{PendingState, Outcome, drops, pending_state_for_outcome}
use pearlarr.Wait.Records.{Store, put_record, save, drop_record}
use pearlarr.Wait.Cleanup.{Effects, cleanup_fails, keep_for_cleanup, retire}
use pearlarr.Wait.Advance.{is_imported, put_pending_state, note_pending_state, resolve_terminal}

-- The row of a key in a store.
unfoldable pub stored : Text → Store → Option RawRecord
stored k s = get k s.rows

pub stored-save :
    (k : Text) (p : PendingImport) (s : Store)
    → stored k (save p s) ≡ (if k == p.infohash then some (to_json p) else stored k s)
unfolding stored save put_record
stored-save k p s =
    if_ind (λ (t : Store). stored k t ≡ (if k == p.infohash then some (to_json p) else stored k s))
      (contains p.infohash (keys s.run_list)) (λ _. get-put k p.infohash (to_json p) s.rows)
      (λ _. get-put k p.infohash (to_json p) s.rows)

stored-drop_record :
    (k infohash : Text) (s : Store)
    → stored k (drop_record infohash s) ≡ (if k == infohash then none else stored k s)
unfolding stored drop_record
stored-drop_record k infohash s =
    ground (arith, get-select_keys k (λ j. not (j == infohash)) s.rows)

stored-put_pending_state :
    (k key : Text) (o : Option PendingState) (s : Store)
    → stored k (put_pending_state key o s) ≡ stored k s
unfolding put_pending_state stored
stored-put_pending_state k key none s = refl
stored-put_pending_state k key (some state) s = refl

stored-note_pending_state :
    (k key : Text) (o : Outcome) (s : Store) → stored k (note_pending_state key o s) ≡ stored k s
unfolding note_pending_state
stored-note_pending_state k key o s = stored-put_pending_state k key (pending_state_for_outcome o) s

module _ (nfc : Text → Text) (e : Effects) where
  -- the record as a failed cleanup keeps it
  unfoldable pub kept : PendingImport → PendingImport
  kept p = folded_record nfc (record p { awaiting_cleanup = true })

  stored-retire :
      (k : Text) (p : PendingImport) (s : Store)
      → stored k (retire nfc e p s) ≡ (
          if k == p.infohash
          then (if cleanup_fails e p then some (to_json (kept p)) else none)
          else stored k s)
  unfolding retire keep_for_cleanup kept folded_record stored
  stored-retire k p s = elim (Bool-cases (cleanup_fails e p)) [
    | inl h ↦ rw h (stored-save k (kept p) s)
    | inr h ↦ rw h (stored-drop_record k p.infohash s)
  ]

  -- Every outcome: what it leaves at the record's key, and that it leaves the other keys alone.
  pub resolve_terminal-stored :
      (k : Text) (p : PendingImport) (o : Outcome) (carried_over : Bool) (s : Store)
      → stored k (resolve_terminal nfc e p o carried_over s) ≡ (
          if not (k == p.infohash)
          then stored k s
          else if is_imported o
          then (if cleanup_fails e p then some (to_json (kept p)) else none)
          else if drops o
          then none
          else stored k s)
  unfolding resolve_terminal
  resolve_terminal-stored k p o carried_over s = elim (Bool-cases (is_imported o)) [
    | inl h ↦ rw h (stored-retire k p s ∙ ground arith)
    | inr h ↦ elim (Bool-cases (drops o)) [
      | inl d ↦ rw (h, d) (stored-drop_record k p.infohash s ∙ ground arith)
      | inr d ↦ elim (Bool-cases carried_over) [
        | inl c ↦ rw (h, d, c) (stored-note_pending_state k p.infohash o s ∙ ground arith)
        | inr c ↦ rw (h, d, c) (ground arith)
      ]
    ]
  ]
