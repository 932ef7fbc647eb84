-- ===== src/Base/Sets.antt =====
-- Python sets as lists without regard to order or repetition, read by `in`.
use mathlib.Core.Path.{◌≡◌, refl, ap, ◌∙◌}
use mathlib.Core.Logic.{inl, inr}
use mathlib.Core.Bool.{Bool, true, false, not, ◌&&◌, ◌||◌}
use mathlib.Core.List.{List, [], ◌∷◌, ◌++◌, Memᴰ}
use native.Mathlib.Omega.{arith}
use pearlarr.Base.Tests.{if◌then◌else◌, Bool-cases}
use Prim.Native.Nat.{ℕ}
use pearlarr.Base.Equality.{Eq, nat_eq, ◌==◌, ==_refl, eq_of_==}
use pearlarr.Base.Lists.{insert_sorted, sorted, is_empty, select, all, all-mem, all_of_mem}

module _ {ℓ} {A : Type ℓ} ⦃e : Eq A⦄ where
  abbrev pub contains : A → List A → Bool
  contains a [] = false
  contains a (x ∷ xs) = a == x || contains a xs

  -- `xs <= ys` for sets
  abbrev pub subset : List A → List A → Bool
  subset xs ys = all (λ x. contains x ys) xs

  abbrev pub same_set : List A → List A → Bool
  same_set xs ys = subset xs ys && subset ys xs

  -- `list(set(xs))`, in the order of the last occurrences
  abbrev pub distinct : List A → List A
  distinct [] = []
  distinct (x ∷ xs) = let rest = distinct xs in if contains x xs then rest else x ∷ rest

  -- `dict.fromkeys(xs)`: each element once, in the order of the first occurrences
  abbrev pub fromkeys : List A → List A
  fromkeys [] = []
  fromkeys (x ∷ xs) = x ∷ select (λ y. not (x == y)) (fromkeys xs)

  -- No element stands twice.
  abbrev pub unique : List A → Bool
  unique [] = true
  unique (x ∷ xs) = not (contains x xs) && unique xs

  pub contains_of_mem : {a : A} (xs : List A) → Memᴰ a xs → contains a xs ≡ true
  contains_of_mem [] m = elim m [ ]
  contains_of_mem {a} (x ∷ xs) (Memᴰ.head h) = ground (arith, e.same_iff a x)
  contains_of_mem (x ∷ xs) (Memᴰ.tail m) = ground (arith, contains_of_mem xs m)

  pub mem_of_contains : (a : A) (xs : List A) → contains a xs ≡ true → Memᴰ a xs
  mem_of_contains a [] h = absurd (cc)
  mem_of_contains a (x ∷ xs) h = elim (Bool-cases (a == x)) [
    | inl k ↦ Memᴰ.head (eq_of_== a x k)
    | inr k ↦ Memᴰ.tail (mem_of_contains a xs (ground arith))
  ]

  pub contains-append :
      (a : A) (xs ys : List A) → contains a (xs ++ ys) ≡ (contains a xs || contains a ys)
  contains-append a [] ys = refl
  contains-append a (x ∷ xs) ys = ground (arith, contains-append a xs ys)

  pub subset-contains :
      (a : A) (xs ys : List A) → subset xs ys ≡ true → contains a xs ≡ true → contains a ys ≡ true
  subset-contains a xs ys h k = all-mem (λ x. contains x ys) xs (mem_of_contains a xs k) h

  pub subset_of_contains :
      (xs ys : List A)
      → ((a : A) → contains a xs ≡ true → contains a ys ≡ true)
      → subset xs ys ≡ true
  subset_of_contains xs ys h =
      all_of_mem (λ x. contains x ys) xs (λ x m. h x (contains_of_mem xs m))

  pub contains-distinct : (a : A) (xs : List A) → contains a (distinct xs) ≡ contains a xs
  contains-distinct a [] = refl
  contains-distinct a (x ∷ xs) = elim (Bool-cases (contains x xs)) [
    | inl h ↦ elim (Bool-cases (a == x)) [
      | inl k ↦
          let eq : a ≡ x = eq_of_== a x k in
          rw h (contains-distinct a xs ∙ ground (arith, ap (λ y. contains y xs) eq))
      | inr k ↦ rw h (contains-distinct a xs ∙ rw k)
    ]
    | inr h ↦ ground (arith, contains-distinct a xs)
  ]

  pub contains-select :
      (q : A → Bool) (a : A) (xs : List A) → contains a (select q xs) ≡ (q a && contains a xs)
  contains-select q a [] = ground arith
  contains-select q a (x ∷ xs) = elim (Bool-cases (a == x)) [
    | inl h ↦ ground (arith, h, ap q (eq_of_== a x h), contains-select q a xs)
    | inr h ↦ ground (arith, h, contains-select q a xs)
  ]

  select-unique : (q : A → Bool) (xs : List A) → unique xs ≡ true → unique (select q xs) ≡ true
  select-unique q [] h = refl
  select-unique q (x ∷ xs) h = ground (arith, select-unique q xs, contains-select q x xs)

  pub contains-fromkeys : (a : A) (xs : List A) → contains a (fromkeys xs) ≡ contains a xs
  contains-fromkeys a [] = refl
  contains-fromkeys a (x ∷ xs) = ground (
    arith,
    contains-select (λ y. not (x == y)) a (fromkeys xs),
    contains-fromkeys a xs,
    e.same_iff a x,
    e.same_iff x a,
  )

  pub fromkeys-unique : (xs : List A) → unique (fromkeys xs) ≡ true
  fromkeys-unique [] = refl
  fromkeys-unique (x ∷ xs) = ground (
    arith,
    contains-select (λ y. not (x == y)) x (fromkeys xs),
    select-unique (λ y. not (x == y)) (fromkeys xs),
    fromkeys-unique xs,
    ==_refl x,
  )

  pub contains_of_is_empty : (a : A) (xs : List A) → is_empty xs ≡ true → contains a xs ≡ false
  contains_of_is_empty a [] h = refl
  contains_of_is_empty a (x ∷ xs) h = absurd (cc)

contains-insert_sorted :
    (n m : ℕ) (ns : List ℕ) → contains n (insert_sorted m ns) ≡ (n == m || contains n ns)
contains-insert_sorted n m [] = refl
contains-insert_sorted n m (k ∷ ns) = ground (arith, contains-insert_sorted n m ns)

pub contains-sorted : (n : ℕ) (ns : List ℕ) → contains n (sorted ns) ≡ contains n ns
contains-sorted n [] = refl
contains-sorted n (m ∷ ns) =
    contains-insert_sorted n m (sorted ns) ∙ ground (arith, contains-sorted n ns)
