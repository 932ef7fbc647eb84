-- ===== src/Episodes/Judged.antt =====
-- The statuses of the targets of a file map, and the ids that an import is for.
use pearlarr.Base.{
  ℕ, Bool, true, not, ◌&&◌, ◌||◌, Option, List, [], ◌∷◌, ◌≡◌, refl, ap, ◌∙◌, inl, inr, ◌==◌,
  ==_refl, eq_of_==, nat_eq, Dict, get, keys, map_values, contains, contains-select,
  contains-fromkeys, fromkeys, select, any, all, is_empty, Bool-cases, arith,
}
use pearlarr.Episodes.Statuses.{
  FileStatus, is_recommended, TargetJudgment, judgments, judged, all_done, filled_by_hand,
  needing_import, import_ids,
}

-- The keys that a test of the judgment leaves are the targets that pass it.
contains-keys-judgments :
    (f : ℕ × TargetJudgment → Bool) (judge : ℕ → TargetJudgment) (id : ℕ) (ids : List ℕ)
    → contains id (keys (select f (judgments judge ids))) ≡ (f (id, judge id) && contains id ids)
contains-keys-judgments f judge id [] = ground arith
contains-keys-judgments f judge id (j ∷ ids) = elim (Bool-cases (id == j)) [
  | inl h ↦
      ground (
        arith,
        h,
        ap (λ i. f (i, judge i)) (eq_of_== id j h),
        contains-keys-judgments f judge id ids,
      )
  | inr h ↦ ground (arith, h, contains-keys-judgments f judge id ids)
]

contains-keys-statuses :
    (f : ℕ × FileStatus → Bool) (judge : ℕ → TargetJudgment) (id : ℕ) (ids : List ℕ)
    → contains id
        (keys (select f (map_values (λ (j : TargetJudgment). j.status) (judgments judge ids))))
      ≡ (f (id, (judge id).status) && contains id ids)
contains-keys-statuses f judge id [] = ground arith
contains-keys-statuses f judge id (j ∷ ids) = elim (Bool-cases (id == j)) [
  | inl h ↦ ground (
    arith,
    h,
    ap (λ i. f (i, (judge i).status)) (eq_of_== id j h),
    contains-keys-statuses f judge id ids,
  )
  | inr h ↦ ground (arith, h, contains-keys-statuses f judge id ids)
]

all-statuses :
    (f : ℕ × FileStatus → Bool) (judge : ℕ → TargetJudgment) (ids : List ℕ)
    → all f (map_values (λ (j : TargetJudgment). j.status) (judgments judge ids))
      ≡ all (λ id. f (id, (judge id).status)) ids
all-statuses f judge [] = refl
all-statuses f judge (id ∷ ids) = ground (arith, all-statuses f judge ids)

all-select_other :
    (p : ℕ → Bool) (x : ℕ) (ys : List ℕ)
    → p x ≡ true
    → all p (select (λ y. not (x == y)) ys) ≡ all p ys
all-select_other p x [] h = refl
all-select_other p x (y ∷ ys) h = elim (Bool-cases (x == y)) [
  | inl k ↦ ground (arith, k, h, ap p (eq_of_== x y k), all-select_other p x ys h)
  | inr k ↦ ground (arith, k, all-select_other p x ys h)
]

all-fromkeys : (p : ℕ → Bool) (xs : List ℕ) → all p (fromkeys xs) ≡ all p xs
all-fromkeys p [] = refl
all-fromkeys p (x ∷ xs) = ground (arith, all-select_other p x (fromkeys xs), all-fromkeys p xs)

is_empty-statuses :
    (targets : List ℕ) (judge : ℕ → TargetJudgment)
    → is_empty (map_values (λ (j : TargetJudgment). j.status) (judgments judge (fromkeys targets)))
      ≡ is_empty targets
is_empty-statuses [] judge = refl
is_empty-statuses (id ∷ targets) judge = refl

any_ext : (p q : ℕ → Bool) (xs : List ℕ) → ((x : ℕ) → p x ≡ q x) → any p xs ≡ any q xs
any_ext p q [] h = refl
any_ext p q (x ∷ xs) h = ground (arith, h x, any_ext p q xs h)

all_ext :
    (p q : ℕ → Bool) (xs : List ℕ)
    → ((x : ℕ) → contains x xs ≡ true → p x ≡ q x)
    → all p xs ≡ all q xs
all_ext p q [] h = refl
all_ext p q (x ∷ xs) h =
    ground (arith, h x (ground (arith, ==_refl x)), all_ext p q xs (λ y m. h y (ground arith)))

module _ (targets : List ℕ) (sizes : Dict ℕ ℕ) (judge : ℕ → Option ℕ → TargetJudgment) where
  -- the judgment of an id at its intended size
  unfoldable pub judgment : ℕ → TargetJudgment
  judgment id = judge id (get id sizes)

  -- a target whose file is not the recommended one
  unfoldable pub needs_import : ℕ → Bool
  needs_import id = not (is_recommended (judgment id).status) && contains id targets

  contains-needing_import :
      (id : ℕ) → contains id (needing_import (judged targets sizes judge)) ≡ needs_import id
  unfolding needing_import judged needs_import judgment
  contains-needing_import id =
      contains-keys-statuses (λ e. not (is_recommended e.1)) judgment id (fromkeys targets)
      ∙ ground (arith, contains-fromkeys id targets)

  contains-holding_own_copy :
      (id : ℕ)
      → contains id (judged targets sizes judge).holding_own_copy
        ≡ ((judgment id).own_copy && contains id targets)
  unfolding judged judgment
  contains-holding_own_copy id =
      contains-keys-judgments (λ e. e.1.own_copy) judgment id (fromkeys targets)
      ∙ ground (arith, contains-fromkeys id targets)

  -- A file is imported for an id exactly when some id of the file needs the import, and this one needs it too or
  -- already holds the torrent's own copy: a recommended file of another source is never imported over.
  pub contains-import_ids :
      (ids : List ℕ) (id : ℕ)
      → contains id (import_ids (judged targets sizes judge) ids) ≡ (
          any needs_import ids
          && (needs_import id || (judgment id).own_copy && contains id targets)
          && contains id ids)
  unfolding import_ids
  contains-import_ids ids id =
      let s = judged targets sizes judge in
      let needing = needing_import s in
      let wanted : ℕ → Bool = λ x. contains x needing || contains x s.holding_own_copy in
      let some_needs = any_ext (λ x. contains x needing) needs_import ids contains-needing_import in
      elim (Bool-cases (any (λ x. contains x needing) ids)) [
        | inl h ↦ rw h (
            contains-select wanted id ids
            ∙ ground
                (arith, h, some_needs, contains-needing_import id, contains-holding_own_copy id))
        | inr h ↦ rw h (ground (arith, h, some_needs))
      ]

  contains-holding_untagged_copy :
      (id : ℕ)
      → contains id (judged targets sizes judge).holding_untagged_copy
        ≡ ((judgment id).untagged_copy && contains id targets)
  unfolding judged judgment
  contains-holding_untagged_copy id =
      contains-keys-judgments (λ e. e.1.untagged_copy) judgment id (fromkeys targets)
      ∙ ground (arith, contains-fromkeys id targets)

  is_empty-by_id : is_empty (judged targets sizes judge).by_id ≡ is_empty targets
  unfolding judged judgment
  is_empty-by_id = is_empty-statuses targets judgment

  all-by_id :
      (f : ℕ × FileStatus → Bool)
      → all f (judged targets sizes judge).by_id ≡ all (λ id. f (id, (judgment id).status)) targets
  unfolding judged judgment
  all-by_id f =
      all-statuses f judgment (fromkeys targets)
      ∙ all-fromkeys (λ id. f (id, (judgment id).status)) targets

  -- The map is done exactly when it has targets and every one holds the recommended file; a hand import has filled
  -- it exactly when every one holds that or the torrent's own untagged copy.
  pub judged-done :
      (all_done (judged targets sizes judge)
        ≡ (not (is_empty targets) && all (λ id. is_recommended (judgment id).status) targets))
      × (filled_by_hand (judged targets sizes judge) ≡ (
          not (is_empty targets)
          && all
              (λ id. is_recommended (judgment id).status || (judgment id).untagged_copy)
              targets))
  unfolding all_done filled_by_hand
  judged-done =
      let s = judged targets sizes judge in
      let filled : ℕ × FileStatus → Bool =
        λ e. is_recommended e.1 || contains e.0 s.holding_untagged_copy in
      (
        ground (arith, is_empty-by_id, all-by_id (λ e. is_recommended e.1)),
        ground (
          arith,
          is_empty-by_id,
          all-by_id filled,
          all_ext (λ id. filled (id, (judgment id).status))
              (λ id. is_recommended (judgment id).status || (judgment id).untagged_copy) targets
              (λ id m. ground (arith, m, contains-holding_untagged_copy id)),
        ),
      )
