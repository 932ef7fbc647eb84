-- ===== src/Planner/Reduce/Accounts.antt =====
-- `_unflag` and what collects the urls that it drops, through the reduction of one set.
use mathlib.Core.List.Memᴰ
use mathlib.Core.Option
use pearlarr.Base.{
  true, not, ◌≡◌, refl, ap, ◌∙◌, ◌⊎◌, inl, inr, some, List, [], ◌∷◌, Memᴰ, arith, ◌==◌,
  if◌then◌else◌, Bool-cases, if_ind, some_inj, nat_eq, list_eq, option_eq, pair_eq, eq_of_==,
  fold_inv, select, mem-select, get,
}
use pearlarr.Text.{Text}
use pearlarr.Releases.{UrlItem, SeadexDict, flag, unflag, urls_of, url_at}
use pearlarr.Releases.Flags.{url_at-map_urls}
use pearlarr.Planner.Types.{PrivateOnlySkips}
use pearlarr.Planner.Reduce.{
  Urls, Ref, Reduction, flagged_keys, unflag_group, unflag_all, drop_losers, flag_public,
  promote_public_alternative, reduce_same_files_set,
}
use pearlarr.Planner.Reduce.Outcomes.{reduce_same_files_set_cases}
use pearlarr.Planner.Reduce.Safety.{promoted_lem}

flagged_keys-mem :
    (urls : Urls) (url : Text) {u : UrlItem}
    → get url urls ≡ some u
    → u.download ≡ true
    → Memᴰ url (flagged_keys urls)
unfolding flagged_keys
flagged_keys-mem [] url e t = absurd (cc)
flagged_keys-mem ((k, v) ∷ urls) url {u} e t = elim (Bool-cases (url == k)) [
  | inl h ↦
      let eq : v ≡ u = some_inj (rw h at e) in
      let down : v.download ≡ true = ap (λ (x : UrlItem). x.download) eq ∙ t in
      rw down (Memᴰ.head (eq_of_== url k h))
  | inr h ↦
      let later = flagged_keys-mem urls url (rw h at e) t in
      if_ind (λ l. Memᴰ url l) v.download (λ _. Memᴰ.tail later) (λ _. later)
]

-- Where a url that was flagged is accounted for.
module _ (d₀ : SeadexDict) (flagged : List Text) where
  pub record Accounts (r : Reduction) : Type 0 where
    pub kept :
        (rg url : Text) (u : UrlItem)
        → url_at rg url d₀ ≡ some u
        → u.download ≡ true
        → ((v : UrlItem) × (url_at rg url r.dict ≡ some v) × (v.download ≡ true))
          ⊎ Memᴰ (rg, url) r.dropped
    pub of_flagged : (ref : Ref) → Memᴰ ref r.dropped → Memᴰ ref.0 flagged

  unflag_group-Accounts :
      (r : Reduction) (rg : Text) → Memᴰ rg flagged → Accounts r → Accounts (unflag_group r rg)
  unfolding unflag_group
  unflag_group-Accounts r rg m a = record {
    kept = λ i url u e t. elim (a.kept i url u e t) [
      | inr old ↦ inr (Memᴰ.append_left _ old)
      | inl (v, ev, tv) ↦ elim (Bool-cases (rg == i)) [
        | inl h ↦
            let eq = eq_of_== rg i h in
            inr (
              Memᴰ.append_right r.dropped (
                rw (← eq) (
                  Memᴰ.map (λ k. (rg, k))
                    (flagged_keys-mem (urls_of rg r.dict) url (rw (← eq) at ev) tv))))
        | inr h ↦ inl (v, url_at-map_urls rg unflag i url r.dict ∙ rw h ev, tv)
      ]
    ];
    of_flagged = λ ref n. elim (Memᴰ.append_cases r.dropped n) [
      | inl old ↦ a.of_flagged ref old
      | inr new ↦
          let (k, _, e) = Memᴰ.of_map (λ k. (rg, k)) (flagged_keys (urls_of rg r.dict)) new in
          rw (← e) m
    ];
  }

  skips-Accounts :
      (r : Reduction) (s : PrivateOnlySkips) → Accounts r → Accounts (record r { skips = s })
  skips-Accounts r s a = record { kept = a.kept; of_flagged = a.of_flagged }

  promote-Accounts :
      (names : List Text) (r : Reduction) {rg : Text} {d : SeadexDict} (s : PrivateOnlySkips)
      → promote_public_alternative names r.dict ≡ some (rg, d)
      → Accounts r
      → Accounts (record r { dict = d; skips = s })
  unfolding flag_public flag
  promote-Accounts names r {rg} {d} s e a = record {
    kept = λ i url u eu t. elim (a.kept i url u eu t) [
      | inr old ↦ inr old
      | inl (v, ev, tv) ↦
          let changed : url_at i url d ≡ (
              if rg == i
              then Option.map flag_public (url_at i url r.dict)
              else url_at i url r.dict) =
            ap (url_at i url) (promoted_lem names r.dict e).2
            ∙ url_at-map_urls rg flag_public i url r.dict in
          elim (Bool-cases (rg == i)) [
            | inl h ↦ inl (flag_public v, changed ∙ rw (h, ev) refl, ground (arith, tv))
            | inr h ↦ inl (v, changed ∙ rw h ev, tv)
          ]
    ];
    of_flagged = a.of_flagged;
  }

  pub reduce_same_files_set-Accounts :
      (names : List Text) (r : Reduction)
      → Accounts r
      → Accounts (reduce_same_files_set names flagged r)
  unfolding unflag_all drop_losers
  reduce_same_files_set-Accounts names r a =
      reduce_same_files_set_cases Accounts names flagged r
        (λ s.
          fold_inv Accounts unflag_group flagged (λ q rg m. unflag_group-Accounts q rg m) _
            (skips-Accounts r s a))
        (λ s rg d e.
          fold_inv Accounts unflag_group flagged (λ q g m. unflag_group-Accounts q g m) _
            (promote-Accounts names r s e a))
        (λ s keeper _.
          fold_inv Accounts unflag_group (select (λ rg. not (rg == keeper)) flagged)
            (λ q rg m. unflag_group-Accounts q rg (mem-select (λ g. not (g == keeper)) flagged m).0)
            _ (skips-Accounts r s a))

pub start-Accounts :
    (d : SeadexDict) (flagged : List Text) (skips : PrivateOnlySkips)
    → Accounts d flagged (record { dict = d; skips = skips; dropped = [] })
start-Accounts d flagged skips = record {
  kept = λ rg url u e t. inl (u, e, t);
  of_flagged = λ ref m. absurd (Memᴰ.not-nil m);
}
