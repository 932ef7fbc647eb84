-- ===== src/Base/Multisets.antt =====
-- `collections.Counter`: how often each element occurs.
use Prim.Native.Nat.{ℕ, ◌+◌, ◌≤◌, max}
use mathlib.Core.Path.{◌≡◌, refl, ap, ◌∙◌}
use mathlib.Core.Logic.{◌↔◌, inl, inr}
use mathlib.Core.Bool.{Bool, true, false}
use mathlib.Core.List.{List, [], ◌∷◌, ◌++◌}
use native.Mathlib.Omega.{arith}
use pearlarr.Base.Tests.{if◌then◌else◌, Bool-cases, leb, leb_iff}
use pearlarr.Base.Equality.{Eq, ◌==◌, eq_of_==}
use pearlarr.Base.Lists.{all, all-mem, all_of_mem}
use pearlarr.Base.Sets.{contains, mem_of_contains, contains-append}
use pearlarr.Base.Maps.{Dict, keys, get_else}

abbrev pub Counter {ℓ} : Type ℓ → Type ℓ
Counter A = Dict A ℕ

module _ {ℓ} {A : Type ℓ} ⦃e : Eq A⦄ where
  -- `c[a]`, 0 for what is not there
  abbrev pub count : A → Counter A → ℕ
  count a c = get_else a 0 c

  -- `c[a] += 1`
  unfoldable pub increment : A → Counter A → Counter A
  increment a [] = (a, 1) ∷ []
  increment a ((b, n) ∷ c) =
      let rest = increment a c in if a == b then (b, n + 1) ∷ c else (b, n) ∷ rest

  -- `Counter(xs)`
  unfoldable pub counter : List A → Counter A
  unfolding increment
  counter [] = []
  counter (x ∷ xs) = increment x (counter xs)

  -- the entries of `c`, each at its larger count in `c` or `d`
  raise : Counter A → Counter A → Counter A
  raise [] d = []
  raise ((a, n) ∷ c) d = (a, max n (count a d)) ∷ raise c d

  -- the entries of `d` that `c` lacks
  extra : Counter A → Counter A → Counter A
  extra c [] = []
  extra c ((a, n) ∷ d) = let rest = extra c d in if contains a (keys c) then rest else (a, n) ∷ rest

  -- `c | d`: elementwise the larger count
  unfoldable pub union : Counter A → Counter A → Counter A
  unfolding raise extra
  union c d = raise c d ++ extra c d

  -- `c <= d`, which Python asks at the keys of both
  unfoldable pub counter_le : Counter A → Counter A → Bool
  counter_le c d = all (λ a. leb (count a c) (count a d)) (keys c ++ keys d)

  -- How often `a` stands in the list.
  abbrev pub occurrences : A → List A → ℕ
  occurrences a [] = 0
  occurrences a (x ∷ xs) = let rest = occurrences a xs in if a == x then rest + 1 else rest

  pub count-increment :
      (a b : A) (c : Counter A)
      → count a (increment b c) ≡ (if a == b then count a c + 1 else count a c)
  unfolding increment
  count-increment a b [] = ground arith
  count-increment a b ((k, n) ∷ c) =
      ground (arith, count-increment a b c, e.same_iff a b, e.same_iff a k, e.same_iff b k)

  pub count-counter : (a : A) (xs : List A) → count a (counter xs) ≡ occurrences a xs
  unfolding counter
  count-counter a [] = refl
  count-counter a (x ∷ xs) = count-increment a x (counter xs) ∙ ground (arith, count-counter a xs)

  count_absent : (a : A) (c : Counter A) → contains a (keys c) ≡ false → count a c ≡ 0
  count_absent a [] h = refl
  count_absent a ((b, n) ∷ c) h = ground (arith, count_absent a c)

  count-raise :
      (a : A) (c d : Counter A)
      → count a (raise c d) ≡ (if contains a (keys c) then max (count a c) (count a d) else 0)
  unfolding raise
  count-raise a [] d = refl
  count-raise a ((b, n) ∷ c) d = elim (Bool-cases (a == b)) [
    | inl h ↦ ground (arith, h, ap (λ x. count x d) (eq_of_== a b h))
    | inr h ↦ ground (arith, h, count-raise a c d)
  ]

  count-append :
      (a : A) (c d : Counter A)
      → count a (c ++ d) ≡ (if contains a (keys c) then count a c else count a d)
  count-append a [] d = refl
  count-append a ((b, n) ∷ c) d = ground (arith, count-append a c d)

  keys-raise : (c d : Counter A) → keys (raise c d) ≡ keys c
  unfolding raise
  keys-raise [] d = refl
  keys-raise ((a, n) ∷ c) d = ap (λ l. a ∷ l) (keys-raise c d)

  count-extra :
      (a : A) (c d : Counter A) → contains a (keys c) ≡ false → count a (extra c d) ≡ count a d
  unfolding extra
  count-extra a c [] h = refl
  count-extra a c ((b, n) ∷ d) h = elim (Bool-cases (a == b)) [
    | inl k ↦ ground (arith, k, ap (λ x. contains x (keys c)) (eq_of_== a b k))
    | inr k ↦ ground (arith, k, count-extra a c d h)
  ]

  pub count-union : (a : A) (c d : Counter A) → count a (union c d) ≡ max (count a c) (count a d)
  unfolding union
  count-union a c d = elim (Bool-cases (contains a (keys c))) [
    | inl h ↦ count-append a (raise c d) (extra c d) ∙ rw (keys-raise, h) (count-raise a c d ∙ rw h)
    | inr h ↦
        count-append a (raise c d) (extra c d)
        ∙ rw (keys-raise, h) (count-extra a c d h ∙ omega (arith, count_absent a c h))
  ]

  -- The test decides the order of the counts at every element.
  pub counter_le_iff :
      (c d : Counter A) → (counter_le c d ≡ true) ↔ ((a : A) → count a c ≤ count a d)
  unfolding counter_le
  counter_le_iff c d = (to, from)
    where
      below : A → Bool
      below a = leb (count a c) (count a d)

      to : all below (keys c ++ keys d) ≡ true → (a : A) → count a c ≤ count a d
      to h a = elim (Bool-cases (contains a (keys c))) [
        | inl k ↦ (leb_iff (count a c) (count a d)).0 (
            all-mem below (keys c ++ keys d)
              (mem_of_contains a _ (contains-append a (keys c) (keys d) ∙ rw k)) h)
        | inr k ↦ omega (arith, count_absent a c k)
      ]

      from : ((a : A) → count a c ≤ count a d) → all below (keys c ++ keys d) ≡ true
      from h =
          all_of_mem below (keys c ++ keys d) (λ a _. (leb_iff (count a c) (count a d)).1 (h a))
