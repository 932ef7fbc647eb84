-- ===== src/Filter/Cover.antt =====
-- `file_size_cover`.
use pearlarr.Base.{
  ℕ, ◌≤◌, refl, ap, ◌↔◌, List, [], ◌∷◌, Memᴰ, arith, Counter, counter, count, count-counter,
  count-union, occurrences, union, fold, nat_eq, list_eq,
}
use pearlarr.Filter.{file_size_cover}

-- What a cover at least holds.
abbrev pub Fits : List ℕ → (ℕ → ℕ) → Type 0
Fits listing room = (a : ℕ) → occurrences a listing ≤ room a

abbrev AllFit : List (List ℕ) → (ℕ → ℕ) → Type 0
AllFit listings room = (l : List ℕ) → Memᴰ l listings → Fits l room

from_cover :
    (listings : List (List ℕ)) (cover : Counter ℕ) (room : ℕ → ℕ)
    → ((a : ℕ) → count a cover ≤ room a)
    → AllFit listings room
    → (a : ℕ) → count a (fold (λ c l. union c (counter l)) cover listings) ≤ room a
from_cover [] cover room h k = h
from_cover (l ∷ ls) cover room h k =
    from_cover ls (union cover (counter l)) room
      (λ a.
        omega
          (arith, count-union a cover (counter l), count-counter a l, h a, k l (Memᴰ.head refl) a))
      (λ m n. k m (Memᴰ.tail n))

over_cover :
    (listings : List (List ℕ)) (cover : Counter ℕ) (a : ℕ)
    → count a cover ≤ count a (fold (λ c l. union c (counter l)) cover listings)
over_cover [] cover a = omega arith
over_cover (l ∷ ls) cover a =
    omega (arith, count-union a cover (counter l), over_cover ls (union cover (counter l)) a)

over_listing :
    (listings : List (List ℕ)) (cover : Counter ℕ) (l : List ℕ)
    → Memᴰ l listings
    → (a : ℕ) → occurrences a l ≤ count a (fold (λ c l. union c (counter l)) cover listings)
over_listing [] cover l m a = elim m [ ]
over_listing (k ∷ ls) cover l (Memᴰ.head e) a = omega (
  arith,
  count-union a cover (counter k),
  over_cover ls (union cover (counter k)) a,
  count-counter a k,
  ap (occurrences a) e,
)
over_listing (k ∷ ls) cover l (Memᴰ.tail m) a = over_listing ls (union cover (counter k)) l m a

-- The cover is the least multiset that holds every listing: it holds a size as often as fits in a
-- given room if and only if every one of the listings does.
pub file_size_cover_least :
    (listings : List (List ℕ)) (room : ℕ → ℕ)
    → ((a : ℕ) → count a (file_size_cover listings) ≤ room a)
      ↔ ((l : List ℕ) → Memᴰ l listings → Fits l room)
unfolding file_size_cover
file_size_cover_least listings room = (
  λ h l m a. omega (arith, h a, over_listing listings [] l m a),
  from_cover listings [] room (λ a. omega arith),
)
