-- ===== src/Releases/Pairs.antt =====
-- `unambiguous`: which keys it keeps.
use pearlarr.Base.{
  Bool, true, false, ◌≡◌, refl, ap, ◌∙◌, ◌↔◌, inl, inr, not, ◌||◌, ◌&&◌, Option, none, some, List,
  [], ◌∷◌, arith, Eq, ◌==◌, eq_of_==, if◌then◌else◌, Dict, get, set_default, contains,
  get-select_keys, get-set_default, Bool-cases, all, any, nat_eq,
}
use pearlarr.Releases.{scan_pairs, clashes, unambiguous}

module _ {ℓ κ} {K : Type ℓ} {V : Type κ} ⦃e : Eq K⦄ ⦃f : Eq V⦄ where
  -- Every pair of the key has the value.
  abbrev pub agrees : K → V → List (K × V) → Bool
  agrees k v ps = all (λ p. not (k == p.0) || p.1 == v) ps

  abbrev pub lists : K → V → List (K × V) → Bool
  lists k v ps = any (λ p. (k == p.0) && (p.1 == v)) ps

  -- A key that has a value keeps it, and is ambiguous as soon as a pair disagrees.
  scan_old :
      (k : K) (y : V) (ps : List (K × V)) (values : Dict K V) (ambiguous : List K)
      → get k values ≡ some y
      → (get k (scan_pairs values ambiguous ps).0 ≡ some y)
        × (contains k (scan_pairs values ambiguous ps).1
            ≡ (contains k ambiguous || not (agrees k y ps)))
  unfolding scan_pairs clashes
  scan_old k y [] values ambiguous h = (h, ground arith)
  scan_old k y ((j, x) ∷ ps) values ambiguous h =
      let marked = if clashes (get j values) x then j ∷ ambiguous else ambiguous in
      let ih =
        scan_old k y ps (set_default j x values) marked
          (get-set_default k j x values ∙ ground (arith, h)) in
      (ih.0, ih.1 ∙ marks)
    where
      marks :
          (contains k (if clashes (get j values) x then j ∷ ambiguous else ambiguous)
            || not (agrees k y ps))
          ≡ (contains k ambiguous || not (agrees k y ((j, x) ∷ ps)))
      marks = elim (Bool-cases (k == j)) [
        | inl t ↦
            ground
              (arith, t, h, ap (λ i. get i values) (eq_of_== k j t), f.same_iff x y, f.same_iff y x)
        | inr t ↦ ground (arith, t)
      ]

  -- What the pairs say of one key: its first value, unless a later pair disagrees.
  agreed : K → List (K × V) → Option V
  agreed k [] = none
  agreed k ((j, x) ∷ ps) =
      let rest = agreed k ps in if k == j then (if agrees k x ps then some x else none) else rest

  kept : K → Dict K V × List K → Option V
  kept k (values, ambiguous) = if contains k ambiguous then none else get k values

  scan_new :
      (k : K) (ps : List (K × V)) (values : Dict K V) (ambiguous : List K)
      → get k values ≡ none
      → contains k ambiguous ≡ false
      → kept k (scan_pairs values ambiguous ps) ≡ agreed k ps
  unfolding scan_pairs clashes kept agreed
  scan_new k [] values ambiguous h c = rw (c, h)
  scan_new k ((j, x) ∷ ps) values ambiguous h c =
      let marked = if clashes (get j values) x then j ∷ ambiguous else ambiguous in
      elim (Bool-cases (k == j)) [
        | inl t ↦
            let free : contains k marked ≡ false =
              ground (arith, t, h, c, ap (λ i. get i values) (eq_of_== k j t)) in
            let old =
              scan_old k x ps (set_default j x values) marked
                (get-set_default k j x values ∙ ground (arith, h, t)) in
            ground (arith, t, free, old.0, old.1)
        | inr t ↦
            scan_new k ps (set_default j x values) marked
              (get-set_default k j x values ∙ ground (arith, h, t)) (ground (arith, t, c))
            ∙ ground (arith, t)
      ]

  get-unambiguous-agreed : (k : K) (ps : List (K × V)) → get k (unambiguous ps) ≡ agreed k ps
  unfolding unambiguous kept
  get-unambiguous-agreed k ps =
      let r = scan_pairs [] [] ps in
      get-select_keys k (λ i. not (contains i r.1)) r.0
      ∙ ground (arith, scan_new k ps [] [] refl refl)

  agrees-lists :
      (k : K) (v x : V) (ps : List (K × V)) → agrees k x ps ≡ true → lists k v ps ≡ true → x ≡ v
  agrees-lists k v x [] a l = absurd (cc)
  agrees-lists k v x ((j, y) ∷ ps) a l =
      ground (arith, agrees-lists k v x ps, f.same_iff y v, f.same_iff y x)

  agreed_iff :
      (k : K) (v : V) (ps : List (K × V))
      → (agreed k ps ≡ some v) ↔ ((lists k v ps ≡ true) × (agrees k v ps ≡ true))
  unfolding agreed
  agreed_iff k v [] = ground arith
  agreed_iff k v ((j, x) ∷ ps) =
      ground (arith, agreed_iff k v ps, agrees-lists k v x ps, f.same_iff x v)

  -- A key maps to a value exactly when some pair lists it with that value and every pair of the
  -- key has that value.
  pub get-unambiguous :
      (k : K) (v : V) (ps : List (K × V))
      → (get k (unambiguous ps) ≡ some v) ↔ (
          (any (λ p. (k == p.0) && (p.1 == v)) ps ≡ true)
          × (all (λ p. not (k == p.0) || (p.1 == v)) ps ≡ true))
  get-unambiguous k v ps = rw (get-unambiguous-agreed k ps) (agreed_iff k v ps)
