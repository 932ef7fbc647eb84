-- ===== src/Base/Lists.antt =====
-- Comprehensions: `any`, `all`, a filter by a test, `next(..., None)`.
use Prim.Native.Nat.{ℕ, suc}
use mathlib.Core.Path.{◌≡◌, refl, sym, ap, ◌∙◌}
use mathlib.Core.Logic.{inl, inr}
use mathlib.Core.Bool.{Bool, true, false, ◌&&◌, ◌||◌}
use mathlib.Core.Option.{Option, none, some}
use mathlib.Core.List.Memᴰ
use mathlib.Core.List.{List, [], ◌∷◌, Memᴰ}
use native.Mathlib.Omega.{arith}
use pearlarr.Base.Tests.{if◌then◌else◌, Bool-cases, leb}

module _ {ℓ} {A : Type ℓ} where
  abbrev pub length : List A → ℕ
  length [] = 0
  length (x ∷ xs) = suc (length xs)

  abbrev pub is_empty : List A → Bool
  is_empty [] = true
  is_empty (x ∷ xs) = false

  abbrev pub any : (A → Bool) → List A → Bool
  any p [] = false
  any p (x ∷ xs) = p x || any p xs

  abbrev pub all : (A → Bool) → List A → Bool
  all p [] = true
  all p (x ∷ xs) = p x && all p xs

  abbrev pub select : (A → Bool) → List A → List A
  select p [] = []
  select p (x ∷ xs) = let rest = select p xs in if p x then x ∷ rest else rest

  abbrev pub first : (A → Bool) → List A → Option A
  first p [] = none
  first p (x ∷ xs) = let rest = first p xs in if p x then some x else rest

  pub mem-is_empty : (xs : List A) {x : A} → Memᴰ x xs → is_empty xs ≡ false
  mem-is_empty [] m = elim m [ ]
  mem-is_empty (y ∷ ys) m = refl

  pub is_empty-select :
      (p : A → Bool) (xs : List A) → is_empty xs ≡ true → is_empty (select p xs) ≡ true
  is_empty-select p [] h = refl
  is_empty-select p (x ∷ xs) h = absurd (cc)

  pub any-mem : (p : A → Bool) (xs : List A) {x : A} → Memᴰ x xs → p x ≡ true → any p xs ≡ true
  any-mem p [] m h = elim m [ ]
  any-mem p (y ∷ ys) {x} (Memᴰ.head e) h = ground (arith, e, ap p e)
  any-mem p (y ∷ ys) (Memᴰ.tail m) h = ground (arith, any-mem p ys m h)

  pub any_witness :
      (p : A → Bool) (xs : List A) → any p xs ≡ true → (x : A) × Memᴰ x xs × (p x ≡ true)
  any_witness p [] h = absurd (cc)
  any_witness p (x ∷ xs) h = elim (Bool-cases (p x)) [
    | inl e ↦ (x, Memᴰ.head refl, e)
    | inr e ↦ let (y, m, k) = any_witness p xs (ground arith) in (y, Memᴰ.tail m, k)
  ]

  pub all-mem : (p : A → Bool) (xs : List A) {x : A} → Memᴰ x xs → all p xs ≡ true → p x ≡ true
  all-mem p [] m h = elim m [ ]
  all-mem p (y ∷ ys) (Memᴰ.head e) h = ground (arith, ap p e)
  all-mem p (y ∷ ys) (Memᴰ.tail m) h = all-mem p ys m (ground arith)

  pub all_of_mem :
      (p : A → Bool) (xs : List A) → ((x : A) → Memᴰ x xs → p x ≡ true) → all p xs ≡ true
  all_of_mem p [] h = refl
  all_of_mem p (x ∷ xs) h =
      ground (arith, h x (Memᴰ.head refl), all_of_mem p xs (λ y m. h y (Memᴰ.tail m)))

  pub mem-select :
      (p : A → Bool) (xs : List A) {x : A} → Memᴰ x (select p xs) → Memᴰ x xs × (p x ≡ true)
  mem-select p [] m = elim m [ ]
  mem-select p (y ∷ ys) {x} m = elim (Bool-cases (p y)) [
    | inl e ↦ elim (Memᴰ.cases_cons (rw e at m)) [
      | inl h ↦ (Memᴰ.head h, ap p h ∙ e)
      | inr k ↦ let (k', h) = mem-select p ys k in (Memᴰ.tail k', h)
    ]
    | inr e ↦ let (k, h) = mem-select p ys (rw e at m) in (Memᴰ.tail k, h)
  ]

  pub mem-select_of_mem :
      (p : A → Bool) (xs : List A) {x : A} → Memᴰ x xs → p x ≡ true → Memᴰ x (select p xs)
  mem-select_of_mem p [] m h = elim m [ ]
  mem-select_of_mem p (y ∷ ys) (Memᴰ.head e) h = rw (sym (ap p e) ∙ h) (Memᴰ.head e)
  mem-select_of_mem p (y ∷ ys) (Memᴰ.tail m) h = elim (Bool-cases (p y)) [
    | inl e ↦ rw e (Memᴰ.tail (mem-select_of_mem p ys m h))
    | inr e ↦ rw e (mem-select_of_mem p ys m h)
  ]

  pub first-mem :
      (p : A → Bool) (xs : List A) {x : A} → first p xs ≡ some x → Memᴰ x xs × (p x ≡ true)
  first-mem p [] e = absurd (cc)
  first-mem p (y ∷ ys) {x} e = elim (Bool-cases (p y)) [
    | inl h ↦ let eq : y ≡ x = ground arith in (Memᴰ.head (sym eq), rw (← eq) h)
    | inr h ↦ let (m, k) = first-mem p ys (rw h at e) in (Memᴰ.tail m, k)
  ]

  pub first-none : (p : A → Bool) (xs : List A) → first p xs ≡ none → any p xs ≡ false
  first-none p [] e = refl
  first-none p (y ∷ ys) e = ground (arith, first-none p ys)

module _ {ℓ κ} {A : Type ℓ} {B : Type κ} where
  -- `for a in xs: b = step(b, a)`
  abbrev pub fold : (B → A → B) → B → List A → B
  fold step b [] = b
  fold step b (a ∷ xs) = fold step (step b a) xs

  -- An invariant of the body is one of the loop.
  pub fold_inv {μ} :
      (P : B → Type μ) (step : B → A → B) (xs : List A)
      → ((b : B) (a : A) → Memᴰ a xs → P b → P (step b a))
      → (b : B) → P b
      → P (fold step b xs)
  fold_inv P step [] keep b h = h
  fold_inv P step (a ∷ xs) keep b h =
      fold_inv P step xs (λ c x m. keep c x (Memᴰ.tail m)) (step b a) (keep b a (Memᴰ.head refl) h)

-- `sorted`, for numbers
abbrev pub insert_sorted : ℕ → List ℕ → List ℕ
insert_sorted n [] = n ∷ []
insert_sorted n (m ∷ ms) = let rest = insert_sorted n ms in if leb n m then n ∷ m ∷ ms else m ∷ rest

abbrev pub sorted : List ℕ → List ℕ
sorted [] = []
sorted (n ∷ ns) = insert_sorted n (sorted ns)
