-- ===== src/Planner/Match/Verdicts/Evidence.antt =====
-- `_group_verdicts`, by what is listed and what is on disk.
use pearlarr.Base.{
  ℕ, Bool, true, false, not, ◌&&◌, ◌||◌, Option, none, some, List, [], ◌∷◌, ◌++◌, ◌≡◌, refl, ap,
  ◌∙◌, inl, inr, ◌==◌, eq_of_==, nat_eq, option_eq, list_eq, get_else, keys, any, all, fold,
  is_empty, is_some, contains, contains-append, if◌then◌else◌, Bool-cases, arith,
}
use mathlib.Core.Path.{ap₂}
use pearlarr.Text.{Text, normalize_rg}
use pearlarr.Releases.{SeadexDict}
use pearlarr.Planner.Match.{MatchContext, some_in}
use pearlarr.Planner.Match.Verdicts.{
  Cover, Attributed, cover_group, attributed, GroupVerdicts, add_current, add_stale, judge,
  judge_group, group_verdicts,
}
use pearlarr.Planner.Match.Verdicts.Cover.{lists, files_on_disk, good-listed, get_else-attributed}

-- some url of a group of that normal name lists the size
abbrev pub lists_size : SeadexDict → Option Text → Option ℕ → Bool
lists_size d norm none = false
lists_size d norm (some size) = any (lists (contains size) norm) d

-- some url of a group of that normal name lists any size
abbrev pub lists_any : SeadexDict → Option Text → Bool
lists_any d norm = any (lists (λ l. not (is_empty l)) norm) d

-- a known size that no such url lists
abbrev pub is_outdated : SeadexDict → Option Text → Option ℕ → Bool
is_outdated d norm size = is_some size && not (lists_size d norm size)

-- the tests of `judge`, without its order
agrees : List (Option ℕ) → List ℕ → Bool
agrees files listed = all (λ size. some_in size listed) files

differs : List (Option ℕ) → List ℕ → Bool
differs files listed =
    not (is_empty listed) && any (λ size. is_some size && not (some_in size listed)) files

nothing_agrees : (size : Option ℕ) → some_in size [] ≡ false
nothing_agrees none = refl
nothing_agrees (some size) = refl

-- the two appends under their tests
picked_current :
    (b c : Bool) (g rg : Text) (v : GroupVerdicts)
    → contains rg (if b then add_current g v else if c then add_stale g v else v).current_groups
      ≡ (contains rg v.current_groups || (rg == g && b))
unfolding add_current add_stale
picked_current true c g rg v = contains-append rg v.current_groups (g ∷ []) ∙ ground arith
picked_current false true g rg v = ground arith
picked_current false false g rg v = ground arith

picked_stale :
    (b c : Bool) (g rg : Text) (v : GroupVerdicts)
    → (c ≡ true → b ≡ false)
    → contains rg (if b then add_current g v else if c then add_stale g v else v).stale_groups
      ≡ (contains rg v.stale_groups || (rg == g && c))
unfolding add_current add_stale
picked_stale true true g rg v h = absurd (cc (h refl))
picked_stale true false g rg v h = ground arith
picked_stale false true g rg v h = contains-append rg v.stale_groups (g ∷ []) ∙ ground arith
picked_stale false false g rg v h = ground arith

judge-agrees :
    (files : List (Option ℕ)) (listed : List ℕ) (g rg : Text) (v : GroupVerdicts)
    → contains rg (judge files listed g v).current_groups
      ≡ (contains rg v.current_groups || (rg == g && agrees files listed))
unfolding judge add_current add_stale agrees
judge-agrees [] listed g rg v = contains-append rg v.current_groups (g ∷ []) ∙ ground arith
judge-agrees (size ∷ files) [] g rg v = ground (arith, nothing_agrees size)
judge-agrees (size ∷ files) (s ∷ listed) g rg v =
    picked_current (all (λ x. some_in x (s ∷ listed)) (size ∷ files)) _ g rg v

outsider_refutes :
    {A : Type 0} (p q : A → Bool) (xs : List A)
    → any (λ x. q x && not (p x)) xs ≡ true
    → all p xs ≡ false
outsider_refutes p q [] h = absurd (cc)
outsider_refutes p q (x ∷ xs) h = ground (arith, h, outsider_refutes p q xs)

judge-differs :
    (files : List (Option ℕ)) (listed : List ℕ) (g rg : Text) (v : GroupVerdicts)
    → contains rg (judge files listed g v).stale_groups
      ≡ (contains rg v.stale_groups || (rg == g && differs files listed))
unfolding judge add_current add_stale differs
judge-differs [] listed g rg v = ground arith
judge-differs (size ∷ files) [] g rg v = ground arith
judge-differs (size ∷ files) (s ∷ listed) g rg v =
    let p : Option ℕ → Bool = λ x. some_in x (s ∷ listed) in
    picked_stale (all p (size ∷ files)) (any (λ x. is_some x && not (p x)) (size ∷ files)) g rg v
      (outsider_refutes p is_some (size ∷ files))

module _ (cover : Cover) (files : Attributed) where
  -- the files and the sizes of a group
  agrees_at : Text → Bool
  agrees_at rg =
      let norm = normalize_rg (some rg) in agrees (get_else norm [] files) (get_else norm [] cover)

  differs_at : Text → Bool
  differs_at rg =
      let norm = normalize_rg (some rg) in differs (get_else norm [] files) (get_else norm [] cover)

  -- one round of the loop, which asks for the group itself where it asks for the name
  at_name :
      (p : Text → Bool) (rg g : Text) (acc rest : Bool)
      → ((acc || (rg == g && p g)) || (rest && p rg)) ≡ (acc || ((rg == g || rest) && p rg))
  at_name p rg g acc rest = elim (Bool-cases (rg == g)) [
    | inl t ↦ ground (arith, t, ap p (eq_of_== rg g t))
    | inr t ↦ ground (arith, t)
  ]

  current-fold :
      (rg : Text) (names : List Text) (v : GroupVerdicts)
      → contains rg (fold (judge_group cover files) v names).current_groups
        ≡ (contains rg v.current_groups || (contains rg names && agrees_at rg))
  unfolding judge_group agrees_at
  current-fold rg [] v = ground arith
  current-fold rg (g ∷ names) v =
      current-fold rg names (judge_group cover files v g)
      ∙ ap (λ acc. acc || (contains rg names && agrees_at rg)) (judge-agrees _ _ g rg v)
      ∙ at_name agrees_at rg g (contains rg v.current_groups) (contains rg names)

  stale-fold :
      (rg : Text) (names : List Text) (v : GroupVerdicts)
      → contains rg (fold (judge_group cover files) v names).stale_groups
        ≡ (contains rg v.stale_groups || (contains rg names && differs_at rg))
  unfolding judge_group differs_at
  stale-fold rg [] v = ground arith
  stale-fold rg (g ∷ names) v =
      stale-fold rg names (judge_group cover files v g)
      ∙ ap (λ acc. acc || (contains rg names && differs_at rg)) (judge-differs _ _ g rg v)
      ∙ at_name differs_at rg g (contains rg v.stale_groups) (contains rg names)

all_same :
    {A : Type 0} (p q : A → Bool) → ((x : A) → p x ≡ q x) → (xs : List A) → all p xs ≡ all q xs
all_same p q h [] = refl
all_same p q h (x ∷ xs) = rw (h x, all_same p q h xs) refl

any_same :
    {A : Type 0} (p q : A → Bool) → ((x : A) → p x ≡ q x) → (xs : List A) → any p xs ≡ any q xs
any_same p q h [] = refl
any_same p q h (x ∷ xs) = rw (h x, any_same p q h xs) refl

not_empty : (xs ys : List ℕ) → not (is_empty (xs ++ ys)) ≡ (not (is_empty xs) || not (is_empty ys))
not_empty [] ys = refl
not_empty (x ∷ xs) ys = refl

some_in-cover :
    (d : SeadexDict) (norm : Option Text) (size : Option ℕ)
    → some_in size (get_else norm [] (fold cover_group [] d)) ≡ lists_size d norm size
some_in-cover d norm none = refl
some_in-cover d norm (some size) = good-listed (contains size) refl (contains-append size) norm d

-- A group of the picks is current exactly when every file on disk that it answers for has a size that some url of a
-- group of its normal name lists; it is stale exactly when such a url lists any size at all and one of those files has
-- a known size that none lists.
pub contains-group_verdicts :
    (d : SeadexDict) (ctx : MatchContext) (rg : Text)
    → (let norm = normalize_rg (some rg) in
        (contains rg (group_verdicts d ctx).current_groups
          ≡ (contains rg (keys d) && all (lists_size d norm) (files_on_disk ctx norm)))
        × (contains rg (group_verdicts d ctx).stale_groups ≡ (
            contains rg (keys d)
            && (lists_any d norm && any (is_outdated d norm) (files_on_disk ctx norm)))))
unfolding group_verdicts agrees_at differs_at agrees differs
contains-group_verdicts d ctx rg =
    let norm = normalize_rg (some rg) in
    let cover = fold cover_group [] d in
    let start : GroupVerdicts = record { current_groups = []; stale_groups = [] } in
    let found = get_else norm [] (attributed ctx) in
    let files = get_else-attributed ctx norm in
    let listed = some_in-cover d norm in
    (
      current-fold cover (attributed ctx) rg (keys d) start
          ∙ ap (λ b. contains rg (keys d) && b)
              (all_same _ (lists_size d norm) listed found ∙ ap (all (lists_size d norm)) files),
      stale-fold cover (attributed ctx) rg (keys d) start
          ∙ ap₂ (λ b c. contains rg (keys d) && (b && c))
              (good-listed (λ l. not (is_empty l)) refl not_empty norm d)
              (any_same _ (is_outdated d norm)
                  (λ size. ap (λ b. is_some size && not b) (listed size)) found
                ∙ ap (any (is_outdated d norm)) files),
    )
