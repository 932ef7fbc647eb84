-- ===== src/Planner/Reduce/Partition.antt =====
-- The sets that `get_same_files_groups` makes, and the names that stand in them.
use mathlib.Core.List.Memᴰ
use pearlarr.Base.{
  Bool, true, false, not, ◌||◌, ◌≡◌, refl, ap, ◌∙◌, inl, inr, List, [], ◌∷◌, ◌++◌, arith, ◌==◌,
  eq_of_==, Bool-cases, keys, values, any, all, all-mem, all_of_mem, contains, contains-append,
  contains_of_mem, unique, nat_eq, list_eq, fold,
}
use pearlarr.Text.{Text}
use pearlarr.Releases.{SeadexDict}
use pearlarr.Planner.Coverage.{
  CoverageKey, coverage_key, same_coverage, add_to_group, group_step, get_same_files_groups,
}
use pearlarr.Planner.Reduce.Loop.{apart, all_apart}

-- the name stands in some set
abbrev placed : Text → List (List Text) → Bool
placed x gs = any (contains x) gs

apart-add :
    (a b : List Text) (rg : Text)
    → apart a b ≡ true
    → contains rg a ≡ false
    → apart a (b ++ rg ∷ []) ≡ true
apart-add a b rg h k =
    all_of_mem (λ x. not (contains x (b ++ rg ∷ []))) a
      (λ x m.
        let out = all-mem (λ y. not (contains y b)) a m h in
        elim (Bool-cases (x == rg)) [
          | inl e ↦ absurd (cc (ap (λ y. contains y a) (eq_of_== x rg e), contains_of_mem a m, k))
          | inr e ↦ ground (arith, e, out, contains-append x b (rg ∷ []))
        ])

apart-one : (a : List Text) (rg : Text) → contains rg a ≡ false → apart a (rg ∷ []) ≡ true
apart-one a rg k = apart-add a [] rg (all_of_mem _ a (λ x m. refl)) k

-- A set apart from all others, without the new name, stays so.
all-apart-add :
    (a : List Text) (key : CoverageKey) (rg : Text) (grouped : List (CoverageKey × List Text))
    → contains rg a ≡ false
    → all (apart a) (values grouped) ≡ true
    → all (apart a) (values (add_to_group key rg grouped)) ≡ true
unfolding add_to_group
all-apart-add a key rg [] k h = ground (arith, apart-one a rg k)
all-apart-add a key rg ((j, b) ∷ grouped) k h = elim (Bool-cases (same_coverage j key)) [
  | inl t ↦ rw t (ground (arith, h, apart-add a b rg (ground arith) k))
  | inr t ↦ rw t (ground (arith, h, all-apart-add a key rg grouped k (ground arith)))
]

apart-left :
    (a : List Text) (rg : Text) (gs : List (List Text))
    → all (apart a) gs ≡ true
    → placed rg gs ≡ false
    → all (apart (a ++ rg ∷ [])) gs ≡ true
apart-left a rg [] h k = refl
apart-left a rg (g ∷ gs) h k =
    let one : apart (a ++ rg ∷ []) g ≡ true =
      all_of_mem (λ x. not (contains x g)) (a ++ rg ∷ [])
        (λ x m. elim (Memᴰ.append_cases a m) [
          | inl n ↦ all-mem (λ y. not (contains y g)) a n (ground arith)
          | inr n ↦ elim (Memᴰ.cases_cons n) [
            | inl e ↦ ground (arith, ap (λ y. contains y g) e, k)
            | inr o ↦ absurd (Memᴰ.not-nil o)
          ]
        ]) in
    ground (arith, one, apart-left a rg gs)

placed-add :
    (x : Text) (key : CoverageKey) (rg : Text) (grouped : List (CoverageKey × List Text))
    → placed x (values (add_to_group key rg grouped)) ≡ (x == rg || placed x (values grouped))
unfolding add_to_group
placed-add x key rg [] = ground arith
placed-add x key rg ((j, b) ∷ grouped) = elim (Bool-cases (same_coverage j key)) [
  | inl t ↦ rw t (ground (arith, contains-append x b (rg ∷ [])))
  | inr t ↦ rw t (ground (arith, placed-add x key rg grouped))
]

all_apart-add :
    (key : CoverageKey) (rg : Text) (grouped : List (CoverageKey × List Text))
    → placed rg (values grouped) ≡ false
    → all_apart (values grouped) ≡ true
    → all_apart (values (add_to_group key rg grouped)) ≡ true
unfolding add_to_group
all_apart-add key rg [] k h = refl
all_apart-add key rg ((j, b) ∷ grouped) k h = elim (Bool-cases (same_coverage j key)) [
  | inl t ↦ rw t (ground (arith, h, apart-left b rg (values grouped) (ground arith) (ground arith)))
  | inr t ↦ rw t (
      ground (
        arith,
        all-apart-add b key rg grouped (ground arith) (ground arith),
        all_apart-add key rg grouped (ground arith) (ground arith),
      ))
]

loop-apart :
    (d : SeadexDict) (grouped : List (CoverageKey × List Text))
    → unique (keys d) ≡ true
    → all (λ rg. not (placed rg (values grouped))) (keys d) ≡ true
    → all_apart (values grouped) ≡ true
    → all_apart (values (fold group_step grouped d)) ≡ true
loop-apart [] grouped u o h = h
loop-apart ((rg, g) ∷ d) grouped u o h =
    loop-apart d (add_to_group (coverage_key rg g) rg grouped) (ground arith)
      (all_of_mem _ (keys d) (λ x m.
        let fresh = all-mem (λ y. not (placed y (values grouped))) (keys d) m (ground arith) in
        elim (Bool-cases (x == rg)) [
          | inl e ↦ absurd (
              cc (
                ap (λ y. contains y (keys d)) (eq_of_== x rg e),
                contains_of_mem (keys d) m,
                not_there,
              ))
          | inr e ↦ ground (arith, e, fresh, placed-add x (coverage_key rg g) rg grouped)
        ]))
      (all_apart-add (coverage_key rg g) rg grouped (ground arith) h)
  where
    not_there : contains rg (keys d) ≡ false
    not_there = ground arith

loop-placed :
    (x : Text) (d : SeadexDict) (grouped : List (CoverageKey × List Text))
    → placed x (values (fold group_step grouped d))
      ≡ (placed x (values grouped) || contains x (keys d))
loop-placed x [] grouped = ground arith
loop-placed x ((rg, g) ∷ d) grouped =
    loop-placed x d (add_to_group (coverage_key rg g) rg grouped)
    ∙ ground (arith, placed-add x (coverage_key rg g) rg grouped)

-- The same-files sets partition the groups of a dictionary whose keys are distinct: no two sets have
-- a group in common, and a group stands in some set exactly when the dictionary has it.
pub get_same_files_groups-partition :
    (d : SeadexDict) (rg : Text)
    → unique (keys d) ≡ true
    → (all_apart (get_same_files_groups d) ≡ true)
      × (any (contains rg) (get_same_files_groups d) ≡ contains rg (keys d))
unfolding get_same_files_groups
get_same_files_groups-partition d rg u =
    (loop-apart d [] u (all_of_mem _ (keys d) (λ x m. refl)) refl, loop-placed rg d [])
