-- ===== src/Planner/Ownership/Copies.antt =====
-- `_untagged_counter` and `_owns_untagged_copy`: when the untagged files are a listing's.
use pearlarr.Base.{
  ℕ, ◌≤◌, true, false, ◌||◌, ◌≡◌, refl, ◌∙◌, ◌↔◌, List, [], ◌∷◌, arith, ◌==◌, any, is_empty, keys,
  Counter, counter, increment, counter_le, counter_le_iff, count-counter, count, occurrences,
  nat_eq,
}
use pearlarr.Planner.Ownership.{untagged_counter, owns_untagged_copy}

is_empty-increment : (a : ℕ) (c : Counter ℕ) → is_empty (increment a c) ≡ false
unfolding increment
is_empty-increment a [] = refl
is_empty-increment a ((b, n) ∷ c) = ground arith

is_empty-counter : (xs : List ℕ) → is_empty (counter xs) ≡ is_empty xs
unfolding counter
is_empty-counter [] = refl
is_empty-counter (x ∷ xs) = is_empty-increment x (counter xs)

any-increment :
    (a : ℕ) (c : Counter ℕ)
    → any (λ s. s == 0) (keys (increment a c)) ≡ (a == 0 || any (λ s. s == 0) (keys c))
unfolding increment
any-increment a [] = refl
any-increment a ((b, n) ∷ c) = ground (arith, any-increment a c)

any-counter : (xs : List ℕ) → any (λ s. s == 0) (keys (counter xs)) ≡ any (λ s. s == 0) xs
unfolding counter
any-counter [] = refl
any-counter (x ∷ xs) = any-increment x (counter xs) ∙ ground (arith, any-counter xs)

-- The untagged files are a listing's copy exactly when there are some, none has the size zero, and
-- no size occurs more often among them than in the listing.
pub owns_untagged_copy_iff :
    (untagged listed : List ℕ)
    → (owns_untagged_copy (untagged_counter untagged) listed ≡ true) ↔ (
        (is_empty untagged ≡ false)
        × (any (λ s. s == 0) untagged ≡ false)
        × ((a : ℕ) → occurrences a untagged ≤ occurrences a listed))
unfolding untagged_counter owns_untagged_copy
owns_untagged_copy_iff untagged listed = (to, from)
  where
    fits :
        (counter_le (counter untagged) (counter listed) ≡ true)
        ↔ ((a : ℕ) → count a (counter untagged) ≤ count a (counter listed))
    fits = counter_le_iff (counter untagged) (counter listed)

    to :
        owns_untagged_copy (untagged_counter untagged) listed ≡ true
        → (is_empty untagged ≡ false)
          × (any (λ s. s == 0) untagged ≡ false)
          × ((a : ℕ) → occurrences a untagged ≤ occurrences a listed)
    to h =
        let none_empty : is_empty untagged ≡ false = ground (arith, h, is_empty-counter untagged) in
        let none_zero : any (λ s. s == 0) untagged ≡ false =
          ground (arith, h, any-counter untagged) in
        let le : counter_le (counter untagged) (counter listed) ≡ true = ground (arith, h) in
        (
          none_empty,
          none_zero,
          λ a. omega (arith, fits.0 le a, count-counter a untagged, count-counter a listed),
        )

    from :
        (is_empty untagged ≡ false)
          × (any (λ s. s == 0) untagged ≡ false)
          × ((a : ℕ) → occurrences a untagged ≤ occurrences a listed)
        → owns_untagged_copy (untagged_counter untagged) listed ≡ true
    from (e, z, o) =
        let le : counter_le (counter untagged) (counter listed) ≡ true =
          fits.1 (λ a. omega (arith, o a, count-counter a untagged, count-counter a listed)) in
        ground (arith, is_empty-counter untagged, any-counter untagged, e, z, le)
