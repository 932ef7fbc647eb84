-- ===== src/Wait/Retries.antt =====
-- The bounded attempts of a cleanup effect.
use pearlarr.Base.{
  ℕ, ◌+◌, false, not, List, [], ◌∷◌, ◌≡◌, refl, ap, ◌∙◌, inl, inr, first, Bool-cases,
}
use pearlarr.Imports.Outcomes.{EffectStatus, failed}
use pearlarr.Imports.Stored.{or_else}
use pearlarr.Wait.Cleanup.{is_retry, retry_effect, effect_backoff_s}

-- the statuses of the attempts from the n-th on, one more than the pauses
unfoldable pub statuses_from : (ℕ → EffectStatus) → ℕ → List ℕ → List EffectStatus
statuses_from attempt n [] = attempt n ∷ []
statuses_from attempt n (pause ∷ pauses) = attempt n ∷ statuses_from attempt (n + 1) pauses

retry_effect-first :
    (attempt : ℕ → EffectStatus) (n : ℕ) (pauses : List ℕ)
    → retry_effect attempt n pauses
      ≡ or_else failed (first (λ s. not (is_retry s)) (statuses_from attempt n pauses))
unfolding retry_effect statuses_from
retry_effect-first attempt n [] = elim (Bool-cases (is_retry (attempt n))) [
  | inl h ↦ rw h refl
  | inr h ↦ rw h refl
]
retry_effect-first attempt n (pause ∷ pauses) = elim (Bool-cases (is_retry (attempt n))) [
  | inl h ↦ rw h (retry_effect-first attempt (n + 1) pauses)
  | inr h ↦ rw h refl
]

settled :
    (ss : List EffectStatus) → is_retry (or_else failed (first (λ s. not (is_retry s)) ss)) ≡ false
unfolding is_retry
settled [] = refl
settled (s ∷ ss) = elim (Bool-cases (is_retry s)) [ inl h ↦ rw h (settled ss) | inr h ↦ rw h h ]

-- A cleanup effect is tried three times at most and then settled: its status is the first of the attempts that asks for
-- no retry, a failure when all three ask for one, and never a request for another retry.
pub retry_effect-settles :
    (attempt : ℕ → EffectStatus)
    → (retry_effect attempt 0 effect_backoff_s
        ≡ or_else failed (first (λ s. not (is_retry s)) (attempt 0 ∷ attempt 1 ∷ attempt 2 ∷ [])))
      × (is_retry (retry_effect attempt 0 effect_backoff_s) ≡ false)
unfolding statuses_from
retry_effect-settles attempt = (
  retry_effect-first attempt 0 effect_backoff_s,
  ap is_retry (retry_effect-first attempt 0 effect_backoff_s)
      ∙ settled (statuses_from attempt 0 effect_backoff_s),
)
