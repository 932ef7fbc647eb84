-- ===== src/Wait/Retired.antt =====
-- What a retire leaves of a record for the rest of the run.
use pearlarr.Base.{
  Bool, true, false, not, ◌&&◌, ◌||◌, none, List, [], ◌∷◌, ◌≡◌, refl, sym, ap, ◌∙◌, inl, inr, ◌==◌,
  ==_refl, eq_of_==, nat_eq, list_eq, Dict, get_else, put, keys, contains, contains-keys,
  contains-keys-put, contains-keys-select, get-select_keys, select, unique, is_some, fold, if_ind,
  Bool-cases, arith,
}
use pearlarr.Text.{Text}
use pearlarr.Imports.Record.{PendingImport, folded_record}
use pearlarr.Imports.Stored.{RawRecord, to_json, is_awaiting_cleanup}
use pearlarr.Imports.Outcomes.{PendingState, state_queued}
use pearlarr.Wait.Records.{Store, remove, put_record, save, drop_record, active_rows, flagged_rows}
use pearlarr.Wait.Cleanup.{Effects, cleanup_fails, keep_for_cleanup, retire}
use pearlarr.Wait.Runs.{healable_rows, PendingStats, tally_state, tally_carried_over_into_stats}
use pearlarr.Wait.Kept.{kept}

apart : (i k : Text) → (k == i) ≡ false → (i == k) ≡ false
apart i k h = elim (Bool-cases (i == k)) [
  | inl t ↦ absurd (cc (sym h ∙ ap (λ j. k == j) (eq_of_== i k t) ∙ ==_refl k))
  | inr f ↦ f
]

-- two tests that differ at one key alone
module _ (k : Text) (q q' : Text × RawRecord → Bool)
    (agree : (i : Text) (v : RawRecord) → (i == k) ≡ false → q (i, v) ≡ q' (i, v)) where
  select-remove :
      (d : Dict Text RawRecord) → contains k (keys d) ≡ false → select q d ≡ select q' (remove k d)
  select-remove [] h = refl
  select-remove ((j, v) ∷ d) h = elim (Bool-cases (j == k)) [
    | inl t ↦ absurd (ground (arith, h, t, ==_refl k, ap (λ i. k == i) (eq_of_== j k t)))
    | inr t ↦
        let rest = select-remove d (ground (arith, h)) in
        elim (Bool-cases (q' (j, v))) [
          | inl y ↦ rw (t, agree j v t, y, rest) refl
          | inr y ↦ rw (t, agree j v t, y, rest) refl
        ]
  ]

  select-put :
      (v : RawRecord) (d : Dict Text RawRecord)
      → unique (keys d) ≡ true
      → q (k, v) ≡ false
      → select q (put k v d) ≡ select q' (remove k d)
  select-put v [] u h = rw h refl
  select-put v ((j, w) ∷ d) u h = elim (Bool-cases (k == j)) [
    | inl t ↦
        let same = eq_of_== k j t in
        let apart : contains k (keys d) ≡ false =
          ap (λ i. contains i (keys d)) same ∙ ground (arith, u) in
        let skipped : q (j, v) ≡ false = ap (λ i. q (i, v)) (sym same) ∙ h in
        let gone : (j == k) ≡ true = ap (λ i. i == k) (sym same) ∙ ==_refl k in
        rw (t, skipped, gone) (select-remove d apart)
    | inr t ↦
        let other : (j == k) ≡ false = apart j k t in
        let rest = select-put v d (ground (arith, u)) h in
        elim (Bool-cases (q' (j, w))) [
          | inl y ↦ rw (t, other, agree j w other, y, rest) refl
          | inr y ↦ rw (t, other, agree j w other, y, rest) refl
        ]
  ]

already :
    (i k : Text) (ks : List Text) → contains k ks ≡ true → (i == k || contains i ks) ≡ contains i ks
already i k ks h = elim (Bool-cases (i == k)) [
  | inl t ↦ ground (arith, t, h, ap (λ j. contains j ks) (eq_of_== i k t))
  | inr t ↦ rw t refl
]

-- A save leaves the keys of this run.
contains-save :
    (i : Text) (p : PendingImport) (s : Store)
    → contains i (keys (save p s).run_list) ≡ contains i (keys s.run_list)
unfolding save put_record
contains-save i p s = elim (Bool-cases (contains p.infohash (keys s.run_list))) [
  | inl h ↦ rw h (contains-keys-put i p.infohash p s.run_list ∙ already i p.infohash _ h)
  | inr h ↦ rw h refl
]

contains-remove :
    (i k : Text) (l : Dict Text PendingImport)
    → (i == k) ≡ false
    → contains i (keys (remove k l)) ≡ contains i (keys l)
contains-remove i k l h =
    contains-keys i (remove k l)
    ∙ ap is_some (get-select_keys i (λ j. not (j == k)) l ∙ rw h refl)
    ∙ sym (contains-keys i l)

rows-save : (p : PendingImport) (s : Store) → (save p s).rows ≡ put p.infohash (to_json p) s.rows
unfolding save put_record
rows-save p s =
    if_ind (λ (t : Store). t.rows ≡ put p.infohash (to_json p) s.rows)
      (contains p.infohash (keys s.run_list)) (λ _. refl) (λ _. refl)

pending_states-save : (p : PendingImport) (s : Store) → (save p s).pending_states ≡ s.pending_states
unfolding save put_record
pending_states-save p s =
    if_ind (λ (t : Store). t.pending_states ≡ s.pending_states)
      (contains p.infohash (keys s.run_list)) (λ _. refl) (λ _. refl)

module _ (nfc : Text → Text) (e : Effects) (p : PendingImport) (s : Store) where
  pending_states-retire : (retire nfc e p s).pending_states ≡ s.pending_states
  unfolding retire keep_for_cleanup drop_record kept
  pending_states-retire =
      if_ind (λ (t : Store). t.pending_states ≡ s.pending_states) (cleanup_fails e p)
        (λ _. pending_states-save (kept nfc e p) s) (λ _. refl)

  active_rows-kept :
      unique (keys s.rows) ≡ true
      → active_rows (save (kept nfc e p) s) ≡ active_rows (drop_record p.infohash s)
  unfolding active_rows drop_record save put_record kept folded_record is_awaiting_cleanup to_json
  active_rows-kept u =
      let q = kept nfc e p in
      let before : Text × RawRecord → Bool =
        λ r. not (contains r.0 (keys (save q s).run_list)) && not (is_awaiting_cleanup r.1) in
      let after : Text × RawRecord → Bool = λ r.
        not (contains r.0 (keys (remove p.infohash s.run_list))) && not (is_awaiting_cleanup r.1) in
      ap (select before) (rows-save q s)
      ∙ select-put p.infohash before after
          (λ i v h. rw (contains-save i q s, contains-remove i p.infohash s.run_list h) refl)
          (to_json q) s.rows u (ground arith)

  active_rows-retire :
      unique (keys s.rows) ≡ true
      → active_rows (retire nfc e p s) ≡ active_rows (drop_record p.infohash s)
  unfolding retire keep_for_cleanup kept active_rows
  active_rows-retire u =
      if_ind (λ (t : Store). active_rows t ≡ active_rows (drop_record p.infohash s))
        (cleanup_fails e p) (λ _. active_rows-kept u) (λ _. refl)

dropped_lem : (k : Text) (rows : Dict Text RawRecord) → contains k (keys (remove k rows)) ≡ false
dropped_lem k rows =
    contains-keys k (remove k rows)
    ∙ ap is_some {y = none} (get-select_keys k (λ j. not (j == k)) rows ∙ rw (==_refl k) refl)

dropped-inactive :
    (k : Text) (s : Store) → contains k (keys (active_rows (drop_record k s))) ≡ false
unfolding active_rows drop_record
dropped-inactive k s = contains-keys-select _ k (remove k s.rows) (dropped_lem k s.rows)

-- What a cleanup just kept is not healed in the same run, nor is what was dropped.
healable_rows-retire :
    (nfc : Text → Text) (e : Effects) (p : PendingImport) (s : Store)
    → contains p.infohash (keys (healable_rows (retire nfc e p s))) ≡ false
unfolding retire keep_for_cleanup healable_rows flagged_rows drop_record
healable_rows-retire nfc e p s =
    let k = p.infohash in
    if_ind (λ (t : Store). contains k (keys (healable_rows t)) ≡ false) (cleanup_fails e p)
      (λ _.
        let t = keep_for_cleanup nfc e p s in
        contains-keys k (healable_rows t)
        ∙ ap is_some {y = none} (
            get-select_keys k (λ j. not (contains j t.kept_keys)) (flagged_rows t)
            ∙ rw (==_refl k) refl))
      (λ _.
        contains-keys-select _ k (flagged_rows (drop_record k s))
          (contains-keys-select _ k (remove k s.rows) (dropped_lem k s.rows)))

-- After a retire the active rows of the run, and so the carried-over imports that a later tally counts, are those of a
-- store that dropped the record, whether its cleanup succeeded or failed. The record is none of the active rows and none
-- of those that the heal of the same run takes up.
pub retire-active_rows :
    (nfc : Text → Text) (e : Effects) (p : PendingImport) (s : Store) (stats : PendingStats)
    → unique (keys s.rows) ≡ true
    → (active_rows (retire nfc e p s) ≡ active_rows (drop_record p.infohash s))
      × (tally_carried_over_into_stats (retire nfc e p s) stats
          ≡ tally_carried_over_into_stats (drop_record p.infohash s) stats)
      × (contains p.infohash (keys (active_rows (retire nfc e p s))) ≡ false)
      × (contains p.infohash (keys (healable_rows (retire nfc e p s))) ≡ false)
unfolding tally_carried_over_into_stats drop_record
retire-active_rows nfc e p s stats u =
    let same = active_rows-retire nfc e p s u in
    let tally : Dict Text PendingState → Dict Text RawRecord → PendingStats = λ states rows.
      fold (λ t key. tally_state t (get_else key state_queued states)) stats (keys rows) in
    (
      same,
      ap (λ states. tally states (active_rows (retire nfc e p s))) (pending_states-retire nfc e p s)
          ∙ ap (tally s.pending_states) same,
      ap (λ rows. contains p.infohash (keys rows)) same ∙ dropped-inactive p.infohash s,
      healable_rows-retire nfc e p s,
    )
