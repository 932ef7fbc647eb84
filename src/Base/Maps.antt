-- ===== src/Base/Maps.antt =====
-- Python's dict: an association list in insertion order, read at its first entry for a key.
-- Changing a value in place goes through `modify`, which changes the entries of one key.
use mathlib.Core.Path.{◌≡◌, refl, ap, sym, ◌∙◌}
use mathlib.Core.Logic.{inl, inr, ◌⊎◌}
use mathlib.Core.Bool.{Bool, true, false, not, ◌&&◌, ◌||◌}
use mathlib.Core.Option
use mathlib.Core.Option.{Option, none, some}
use mathlib.Core.List.Memᴰ
use mathlib.Core.List.{List, [], ◌∷◌, Memᴰ}
use native.Mathlib.Omega.{arith}
use pearlarr.Base.Tests.{if◌then◌else◌, Bool-cases, is_some}
use pearlarr.Base.Equality.{Eq, ◌==◌, ==_refl, eq_of_==}
use pearlarr.Base.Lists.{select}
use pearlarr.Base.Sets.{contains, unique}

abbrev pub Dict {ℓ κ} : Type ℓ → Type κ → Type (ℓ ⊔ κ)
Dict K V = List (K × V)

module _ {ℓ κ} {K : Type ℓ} {V : Type κ} where
  abbrev pub keys : Dict K V → List K
  keys [] = []
  keys ((k, v) ∷ d) = k ∷ keys d

  abbrev pub values : Dict K V → List V
  values [] = []
  values ((k, v) ∷ d) = v ∷ values d

module _ {ℓ κ} {K : Type ℓ} {V : Type κ} ⦃e : Eq K⦄ where
  -- `d.get(k)`
  abbrev pub get : K → Dict K V → Option V
  get k [] = none
  get k ((j, v) ∷ d) = let rest = get k d in if k == j then some v else rest

  -- `d.get(k, v)`
  abbrev pub get_else : K → V → Dict K V → V
  get_else k v d = elim (get k d) [ none ↦ v | some w ↦ w ]

  -- the value of `k` after a change in place
  abbrev pub modify : K → (V → V) → Dict K V → Dict K V
  modify k f [] = []
  modify k f ((j, v) ∷ d) = (j, if k == j then f v else v) ∷ modify k f d

  -- `d[k] = v`
  abbrev pub put : K → V → Dict K V → Dict K V
  put k v [] = (k, v) ∷ []
  put k v ((j, w) ∷ d) = let rest = put k v d in if k == j then (j, v) ∷ d else (j, w) ∷ rest

  -- `d.setdefault(k, v)`, for its effect on `d`
  abbrev pub set_default : K → V → Dict K V → Dict K V
  set_default k v [] = (k, v) ∷ []
  set_default k v ((j, w) ∷ d) =
      let rest = set_default k v d in if k == j then (j, w) ∷ d else (j, w) ∷ rest

  pub keys-modify : (k : K) (f : V → V) (d : Dict K V) → keys (modify k f d) ≡ keys d
  keys-modify k f [] = refl
  keys-modify k f ((j, v) ∷ d) = ap (λ l. j ∷ l) (keys-modify k f d)

  pub get-modify :
      (i k : K) (f : V → V) (d : Dict K V)
      → get i (modify k f d) ≡ (if k == i then Option.map f (get i d) else get i d)
  get-modify i k f [] = ground arith
  get-modify i k f ((j, v) ∷ d) =
      ground (arith, get-modify i k f d, e.same_iff i j, e.same_iff k j, e.same_iff k i)

  pub get-put :
      (i k : K) (v : V) (d : Dict K V) → get i (put k v d) ≡ (if i == k then some v else get i d)
  get-put i k v [] = refl
  get-put i k v ((j, w) ∷ d) =
      ground (arith, get-put i k v d, e.same_iff i j, e.same_iff k j, e.same_iff i k)

  pub get-set_default :
      (i k : K) (v : V) (d : Dict K V)
      → get i (set_default k v d) ≡ (if i == k && not (is_some (get i d)) then some v else get i d)
  get-set_default i k v [] = ground arith
  get-set_default i k v ((j, w) ∷ d) =
      ground (arith, get-set_default i k v d, e.same_iff i j, e.same_iff k j, e.same_iff i k)

  pub mem-values : (k : K) (d : Dict K V) {v : V} → get k d ≡ some v → Memᴰ v (values d)
  mem-values k [] h = absurd (cc)
  mem-values k ((j, w) ∷ d) {v} h = elim (Bool-cases (k == j)) [
    | inl t ↦ Memᴰ.head (ground arith)
    | inr t ↦ Memᴰ.tail (mem-values k d (rw t at h))
  ]

  -- `d.setdefault(k, v)` changed in place
  pub get-modify-set_default :
      (i k : K) (f : V → V) (v : V) (d : Dict K V)
      → get i (modify k f (set_default k v d))
        ≡ (if i == k then some (f (get_else i v d)) else get i d)
  get-modify-set_default i k f v d = ground (
    arith,
    get-modify i k f (set_default k v d),
    get-set_default i k v d,
    e.same_iff i k,
    e.same_iff k i,
  )

  pub contains-keys : (k : K) (d : Dict K V) → contains k (keys d) ≡ is_some (get k d)
  contains-keys k [] = refl
  contains-keys k ((j, v) ∷ d) = ground (arith, contains-keys k d)

  pub get-select_keys :
      (k : K) (q : K → Bool) (d : Dict K V)
      → get k (select (λ p. q p.0) d) ≡ (if q k then get k d else none)
  get-select_keys k q [] = ground arith
  get-select_keys k q ((j, v) ∷ d) = elim (Bool-cases (k == j)) [
    | inl h ↦ ground (arith, h, ap q (eq_of_== k j h), get-select_keys k q d)
    | inr h ↦ ground (arith, h, get-select_keys k q d)
  ]

  pub mem_of_get : (k : K) (d : Dict K V) {v : V} → get k d ≡ some v → Memᴰ (k, v) d
  mem_of_get k [] h = absurd (cc)
  mem_of_get k ((j, w) ∷ d) {v} h = elim (Bool-cases (k == j)) [
    | inl t ↦
        let eq : w ≡ v = ground arith in
        Memᴰ.head (ap (λ i. (i, v)) (eq_of_== k j t) ∙ ap (λ x. (j, x)) (sym eq))
    | inr t ↦ Memᴰ.tail (mem_of_get k d (rw t at h))
  ]

  pub mem-put :
      (k : K) (v : V) (d : Dict K V) {p : K × V} → Memᴰ p (put k v d) → (p ≡ (k, v)) ⊎ Memᴰ p d
  mem-put k v [] m = elim (Memᴰ.cases_cons m) [ inl h ↦ inl h | inr n ↦ absurd (Memᴰ.not-nil n) ]
  mem-put k v ((j, w) ∷ d) m = elim (Bool-cases (k == j)) [
    | inl t ↦ elim (Memᴰ.cases_cons (rw t at m)) [
      | inl h ↦ inl (h ∙ ap (λ i. (i, v)) (sym (eq_of_== k j t)))
      | inr n ↦ inr (Memᴰ.tail n)
    ]
    | inr t ↦ elim (Memᴰ.cases_cons (rw t at m)) [
      | inl h ↦ inr (Memᴰ.head h)
      | inr n ↦ elim (mem-put k v d n) [ inl h ↦ inl h | inr o ↦ inr (Memᴰ.tail o) ]
    ]
  ]

  pub contains-keys-put :
      (i k : K) (v : V) (d : Dict K V)
      → contains i (keys (put k v d)) ≡ (i == k || contains i (keys d))
  contains-keys-put i k v [] = refl
  contains-keys-put i k v ((j, w) ∷ d) =
      ground (arith, contains-keys-put i k v d, e.same_iff i j, e.same_iff k j, e.same_iff i k)

  pub contains-keys-select :
      (q : K × V → Bool) (i : K) (d : Dict K V)
      → contains i (keys d) ≡ false
      → contains i (keys (select q d)) ≡ false
  contains-keys-select q i [] h = refl
  contains-keys-select q i ((j, w) ∷ d) h = ground (arith, contains-keys-select q i d)

  -- A later entry is read past the first one, whose key differs.
  pub get-cons :
      (i k : K) (u : V) (d : Dict K V) {v : V}
      → unique (keys ((k, u) ∷ d)) ≡ true
      → get i d ≡ some v
      → get i ((k, u) ∷ d) ≡ some v
  get-cons i k u d h e = elim (Bool-cases (i == k)) [
    | inl t ↦
        ground (arith, t, h, e, ap (λ j. contains j (keys d)) (eq_of_== i k t), contains-keys i d)
    | inr t ↦ rw t e
  ]

module _ {ℓ κ} {K : Type ℓ} {V : Type κ} ⦃e : Eq K⦄ where
  -- With distinct keys every value is read under some key.
  pub get_of_value :
      (d : Dict K V) {v : V}
      → unique (keys d) ≡ true
      → Memᴰ v (values d)
      → (k : K) × (get k d ≡ some v)
  get_of_value [] u m = elim m [ ]
  get_of_value ((j, w) ∷ d) u (Memᴰ.head h) = (j, ground (arith, h, ==_refl j))
  get_of_value ((j, w) ∷ d) u (Memᴰ.tail m) =
      let (k, h) = get_of_value d (ground arith) m in (k, get-cons k j w d u h)

module _ {ℓ κ μ} {K : Type ℓ} {V : Type κ} {W : Type μ} where
  -- a change of every value in place
  abbrev pub map_values : (V → W) → Dict K V → Dict K W
  map_values f [] = []
  map_values f ((k, v) ∷ d) = (k, f v) ∷ map_values f d

  pub keys-map_values : (f : V → W) (d : Dict K V) → keys (map_values f d) ≡ keys d
  keys-map_values f [] = refl
  keys-map_values f ((k, v) ∷ d) = ap (λ l. k ∷ l) (keys-map_values f d)

  pub get-map_values :
      ⦃e : Eq K⦄
      → (k : K) (f : V → W) (d : Dict K V) → get k (map_values f d) ≡ Option.map f (get k d)
  get-map_values k f [] = refl
  get-map_values k f ((j, v) ∷ d) = ground (arith, get-map_values k f d)
