-- ===== src/Imports/Claims.antt =====
-- The claims of a record, as a grab joins its own.
use pearlarr.Base.{
  ℕ, true, false, ◌||◌, Option, none, some, List, [], ◌∷◌, ◌≡◌, refl, ap, ◌∙◌, inl, inr, ◌==◌,
  eq_of_==, nat_eq, map, first, contains, unique, if◌then◌else◌, Bool-cases, arith,
}
use pearlarr.Text.{Text}
use pearlarr.Imports.Record.{EntryClaim, PendingImport, folded_record, join_claim, with_claim}

-- the claim of an entry
unfoldable pub entry_claim : ℕ → List EntryClaim → Option EntryClaim
entry_claim al_id claims = first (λ c. c.al_id == al_id) claims

-- the claim with the clock and the preowned ids of the stored one
unfoldable pub refreshed_claim : EntryClaim → Option EntryClaim → EntryClaim
refreshed_claim claim none = claim
refreshed_claim claim (some stored) = record claim {
  preowned_episode_ids = stored.preowned_episode_ids;
  claimed_at = stored.claimed_at;
}

-- the entries that claim, in order
unfoldable pub entries : List EntryClaim → List ℕ
entries claims = map (λ (c : EntryClaim). c.al_id) claims

module _ (claim : EntryClaim) where
  entry_claim-join_claim :
      (al_id : ℕ) (claims : List EntryClaim)
      → entry_claim al_id (join_claim claim claims) ≡ (
          if claim.al_id == al_id
          then some (refreshed_claim claim (entry_claim al_id claims))
          else entry_claim al_id claims)
  unfolding join_claim entry_claim refreshed_claim
  entry_claim-join_claim al_id [] = refl
  entry_claim-join_claim al_id (stored ∷ claims) =
      let same = nat_eq.same_iff stored.al_id claim.al_id in
      elim (Bool-cases (stored.al_id == claim.al_id)) [
        | inl h ↦ elim (Bool-cases (claim.al_id == al_id)) [
          | inl k ↦ rw (h, k, ap (λ i. i == al_id) (eq_of_== stored.al_id claim.al_id h) ∙ k) refl
          | inr k ↦ rw (h, k, ap (λ i. i == al_id) (eq_of_== stored.al_id claim.al_id h) ∙ k) refl
        ]
        | inr h ↦ rw h (ground (arith, h, entry_claim-join_claim al_id claims))
      ]

  contains-entries-join_claim :
      (al_id : ℕ) (claims : List EntryClaim)
      → contains al_id (entries (join_claim claim claims))
        ≡ (al_id == claim.al_id || contains al_id (entries claims))
  unfolding join_claim entries
  contains-entries-join_claim al_id [] = refl
  contains-entries-join_claim al_id (stored ∷ claims) =
      ground (arith, contains-entries-join_claim al_id claims)

  unique-entries-join_claim :
      (claims : List EntryClaim)
      → unique (entries claims) ≡ true
      → unique (entries (join_claim claim claims)) ≡ true
  unfolding join_claim entries
  unique-entries-join_claim [] h = refl
  unique-entries-join_claim (stored ∷ claims) h = ground (
    arith,
    unique-entries-join_claim claims,
    contains-entries-join_claim stored.al_id claims,
    ap (λ i. contains i (entries claims)) {x = stored.al_id} {y = claim.al_id},
  )

-- A record on which no entry claims twice, with a claim joined: the entry's claim is the new one, with the clock and the preowned ids of the claim
-- that it had, if any; the other entries' claims stay; the record is no longer kept for cleanup; and still no
-- entry claims twice.
pub with_claim-joins :
    (nfc : Text → Text) (claim : EntryClaim) (p : PendingImport) (al_id : ℕ)
    → unique (entries p.claims) ≡ true
    → (let joined = with_claim nfc claim p in
        (entry_claim al_id joined.claims ≡ (
          if claim.al_id == al_id
          then some (refreshed_claim claim (entry_claim al_id p.claims))
          else entry_claim al_id p.claims))
        × (joined.awaiting_cleanup ≡ false)
        × (unique (entries joined.claims) ≡ true))
unfolding with_claim folded_record
with_claim-joins nfc claim p al_id once = (
  entry_claim-join_claim claim al_id p.claims,
  refl,
  unique-entries-join_claim claim p.claims once,
)
