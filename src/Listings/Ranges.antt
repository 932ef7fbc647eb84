-- ===== src/Listings/Ranges.antt =====
-- The runs of the episode ranges, read back.
use pearlarr.Base.{
  ℕ, ◌+◌, ◌≤◌, Bool, ◌&&◌, ◌||◌, List, [], ◌∷◌, ◌++◌, ◌≡◌, refl, ◌∙◌, inl, inr, ◌==◌, leb, any,
  contains, contains-distinct, contains-sorted, distinct, sorted, fold, nat_eq, if_ind, Bool-cases,
  arith,
}
use pearlarr.Listings.Coverage.{Runs, run_step, all_runs, runs_of}

-- the number lies in the run
unfoldable pub in_run : ℕ → ℕ × ℕ → Bool
in_run n (start, end) = leb start n && leb n end

any-append {ℓ} :
    {A : Type ℓ} (p : A → Bool) (xs ys : List A) → any p (xs ++ ys) ≡ (any p xs || any p ys)
any-append p [] ys = refl
any-append p (x ∷ xs) ys = ground (arith, any-append p xs ys)

-- what the walk has covered
covered : ℕ → Runs → Bool
covered n r = any (in_run n) (all_runs r)

covered-all_runs :
    (n : ℕ) (r : Runs)
    → covered n r ≡ (any (in_run n) r.closed || in_run n (r.run_start, r.run_end))
unfolding covered all_runs
covered-all_runs n r = any-append (in_run n) r.closed _ ∙ ground arith

ordered-run_step :
    (r : Runs) (e : ℕ) → r.run_start ≤ r.run_end → (run_step r e).run_start ≤ (run_step r e).run_end
unfolding run_step
ordered-run_step r e h =
    if_ind (λ (s : Runs). s.run_start ≤ s.run_end) (e == r.run_end + 1) (λ k. ground (arith, h, k))
      (λ _. omega arith)

covered-run_step :
    (n : ℕ) (r : Runs) (e : ℕ)
    → r.run_start ≤ r.run_end
    → covered n (run_step r e) ≡ (covered n r || n == e)
unfolding run_step in_run covered all_runs
covered-run_step n r e h = elim (Bool-cases (e == r.run_end + 1)) [
  | inl k ↦ rw k (covered-all_runs n _ ∙ ground (arith, k, h, covered-all_runs n r))
  | inr k ↦ rw k (
      any-append (in_run n) (r.closed ++ (r.run_start, r.run_end) ∷ []) ((e, e) ∷ [])
      ∙ ground arith)
]

walk :
    (n : ℕ) (es : List ℕ) (r : Runs)
    → r.run_start ≤ r.run_end
    → covered n (fold run_step r es) ≡ (covered n r || contains n es)
walk n [] r h = ground arith
walk n (e ∷ es) r h =
    walk n es (run_step r e) (ordered-run_step r e h) ∙ ground (arith, covered-run_step n r e h)

runs_of-covers : (n : ℕ) (es : List ℕ) → any (in_run n) (runs_of es) ≡ contains n es
unfolding runs_of covered all_runs in_run
runs_of-covers n [] = refl
runs_of-covers n (e ∷ es) =
    walk n es (record { closed = []; run_start = e; run_end = e }) (omega arith) ∙ ground arith

-- The runs of a range text cover exactly the episodes that it was made of: reading each run as its numbers gives the
-- set back.
pub runs_of-roundtrip :
    (n : ℕ) (episodes : List ℕ)
    → any (in_run n) (runs_of (sorted (distinct episodes))) ≡ contains n episodes
runs_of-roundtrip n episodes =
    runs_of-covers n (sorted (distinct episodes))
    ∙ contains-sorted n (distinct episodes)
    ∙ contains-distinct n episodes
