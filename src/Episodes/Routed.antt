-- ===== src/Episodes/Routed.antt =====
-- The claim that an episode is routed to.
use pearlarr.Base.{
  ℕ, Bool, true, ◌&&◌, Option, none, some, List, [], ◌≡◌, refl, sym, ap, ◌∙◌, inl, inr, ◌==◌,
  eq_of_==, nat_eq, Dict, get, put, get-put, contains, is_empty, select, mem-select, first,
  first-mem, some_inj, fold_inv, Memᴰ, count, counter, Bool-cases, arith,
}
use mathlib.Core.Path.{subst}
use pearlarr.Imports.Record.{EntryClaim, admits}
use pearlarr.Episodes.Routes.{
  Route, unscoped, unscoped_series, lone_unscoped_claims, RecordSnapshot, series_of,
  route_by_series, route_from, route,
}

-- what the entries of the lone claims are
Lone : List EntryClaim → Dict ℕ EntryClaim → Type 0
Lone claims d =
    (sid : ℕ) (c : EntryClaim)
    → get sid d ≡ some c
    → Memᴰ c claims × (c.series_id ≡ sid) × (is_empty c.ordered_episode_ids ≡ true)

put-Lone :
    (claims : List EntryClaim) (d : Dict ℕ EntryClaim) (c : EntryClaim)
    → Memᴰ c claims
    → is_empty c.ordered_episode_ids ≡ true
    → Lone claims d
    → Lone claims (put c.series_id c d)
unfolding Lone
put-Lone claims d c m empty lone sid x e =
    let at_sid = sym (get-put sid c.series_id c d) ∙ e in
    elim (Bool-cases (sid == c.series_id)) [
      | inl h ↦
          let same : c ≡ x = some_inj (rw h at at_sid) in
          subst (λ y. Memᴰ y claims × (y.series_id ≡ sid) × (is_empty y.ordered_episode_ids ≡ true))
            same (m, sym (eq_of_== sid c.series_id h), empty)
      | inr h ↦ lone sid x (rw h at at_sid)
    ]

lone_unscoped_claims-Lone : (claims : List EntryClaim) → Lone claims (lone_unscoped_claims claims)
unfolding lone_unscoped_claims Lone
lone_unscoped_claims-Lone claims =
    let test : EntryClaim → Bool =
      λ c. unscoped c && (count c.series_id (counter (unscoped_series claims)) == 1) in
    fold_inv (Lone claims) (λ d c. put c.series_id c d) (select test claims)
      (λ d c m lone.
        let (n, t) = mem-select test claims m in put-Lone claims d c n (ground arith) lone)
      [] (λ sid c e. absurd (cc))

module _ (s : RecordSnapshot) (ep_id : ℕ) (c : EntryClaim) where
  -- what is known of a claim that a route names
  Admitted : Route → Type 0
  Admitted r =
      r.claim ≡ some c
      → Memᴰ c s.pending.claims × (r.series_id ≡ some c.series_id) × (admits c ep_id ≡ true)

  route_by_series-Admitted : (held : Option ℕ) → Admitted (route_by_series s held)
  unfolding route_by_series Admitted admits Lone
  route_by_series-Admitted none e = absurd (cc)
  route_by_series-Admitted (some sid) e =
      let (m, same, empty) = lone_unscoped_claims-Lone s.pending.claims sid c e in
      (m, ap (λ i. some i) (sym same), rw empty refl)

  route_from-Admitted :
      (o : Option EntryClaim) (held : Option ℕ)
      → first (λ (d : EntryClaim). contains ep_id d.ordered_episode_ids) s.pending.claims ≡ o
      → Admitted (route_from s o held)
  unfolding route_from Admitted admits
  route_from-Admitted none held f e = route_by_series-Admitted held e
  route_from-Admitted (some d) held f e =
      let same : d ≡ c = some_inj e in
      let (m, holds) =
        first-mem (λ (x : EntryClaim). contains ep_id x.ordered_episode_ids) s.pending.claims
          (f ∙ e) in
      (m, ap (λ (x : EntryClaim). some x.series_id) same, ground (arith, holds))

  -- An episode is routed only to a claim of the record that admits it, and then to the series of that claim.
  pub route-admits :
      (route s ep_id).claim ≡ some c
      → Memᴰ c s.pending.claims
        × ((route s ep_id).series_id ≡ some c.series_id)
        × (admits c ep_id ≡ true)
  unfolding route Admitted
  route-admits = route_from-Admitted _ (series_of s ep_id) refl
