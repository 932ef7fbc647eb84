-- ===== src/Planner/Reduce/Safety.antt =====
-- `reduce_overlapping_downloads` and its parts, by the flags that they may set.
use mathlib.Core.List.Memᴰ
use pearlarr.Base.{
  sorted, ℕ, Bool, true, false, not, ◌||◌, ◌≡◌, refl, sym, ap, get-map_values, keys-map_values, ◌∙◌,
  inl, inr, some, List, [], ◌∷◌, Memᴰ, arith, ◌==◌, if◌then◌else◌, keys, map_values, get, get-cons,
  unique, is_empty, subset, option_eq, pair_eq, some_inj, Bool-cases, if_ind, nat_eq, list_eq,
  ==_refl, mem-values, any-mem, mem-select, first-mem, first, select, fold_inv, Option-cases, map,
  any, contains,
}
use mathlib.Core.Path.{subst}
use pearlarr.Text.{Text}
use pearlarr.Releases.{
  UrlItem, SeadexDict, ReleaseGroup, flag, unflag, modify_urls, urls_of, url_at,
}
use pearlarr.Planner.Types.{PrivateOnlySkips, no_skips}
use pearlarr.Planner.Coverage.{ParsedKey, get_same_files_groups}
use pearlarr.Planner.Reduce.{
  Urls, all_public, Ref, Reduction, is_flagged, is_fallback_group, flagged_keys, unflag_group,
  unflag_all, drop_losers, promotable, flag_public, choose_promoted, promote_public_alternative,
  reduce_same_files_set, is_rescuable, episodes_at, survivor_keys, rescue_step,
  rescue_dropped_coverage, dedupe_urls, dedupe, reduce_step, reduce_overlapping_downloads,
}
use pearlarr.Planner.Reduce.Outcomes.{reduce_same_files_set_cases}
use pearlarr.Planner.Reduce.Refines.{
  HasUrlKeys, MayFlag, ItemRefines, ItemRefines-refl, ItemRefines-unflag, ItemRefines-flag,
  MayFlag-public, Refines, Refines-refl, Refines-trans, Refines-map_urls, Refines-modify_url,
}

pub flagged_keys-get :
    (urls : Urls) {url : Text}
    → unique (keys urls) ≡ true
    → Memᴰ url (flagged_keys urls)
    → (u : UrlItem) × (get url urls ≡ some u) × (u.download ≡ true)
unfolding flagged_keys
flagged_keys-get [] h m = elim m [ ]
flagged_keys-get ((k, u) ∷ urls) {url} h m = elim (Bool-cases u.download) [
  | inl t ↦ elim (Memᴰ.cases_cons (rw t at m)) [
    | inl e ↦ (u, rw (e, ==_refl k) refl, t)
    | inr m' ↦
        let (v, e, t') = flagged_keys-get urls (ground arith) m' in
        (v, get-cons url k u urls h e, t')
  ]
  | inr t ↦
      let (v, e, t') = flagged_keys-get urls (ground arith) (rw t at m) in
      (v, get-cons url k u urls h e, t')
]

-- The reduction of one set, against the dictionary that the set began with.
module _ (d₀ : SeadexDict) (urls_unique : HasUrlKeys d₀) where
  pub record Keeps (r : Reduction) : Type 0 where
    pub refines : Refines d₀ r.dict
    pub dropped :
        (ref : Ref)
        → Memᴰ ref r.dropped
        → (u : UrlItem) × (url_at ref.0 ref.1 d₀ ≡ some u) × MayFlag u

  pub unflag_group-Keeps : (r : Reduction) (rg : Text) → Keeps r → Keeps (unflag_group r rg)
  unfolding unflag_group
  unflag_group-Keeps r rg h = record {
    refines = Refines-map_urls h.refines rg unflag (λ url u v e e' i. ItemRefines-unflag i);
    dropped = λ ref m. elim (Memᴰ.append_cases r.dropped m) [
      | inl old ↦ h.dropped ref old
      | inr new ↦ fresh ref new
    ];
  }
    where
      fresh :
          (ref : Ref)
          → Memᴰ ref (map (λ url. (rg, url)) (flagged_keys (urls_of rg r.dict)))
          → (u : UrlItem) × (url_at ref.0 ref.1 d₀ ≡ some u) × MayFlag u
      fresh ref new =
          let (url, m, e) = Memᴰ.of_map _ (flagged_keys (urls_of rg r.dict)) new in
          let all_unique = ap unique (h.refines.url_keys rg) ∙ urls_unique rg in
          let (v, ev, t) = flagged_keys-get (urls_of rg r.dict) all_unique m in
          let (u, eu, i) = h.refines.items rg url v ev in rw (← e) (u, eu, i.newly t)

  pub unflag_all-Keeps :
      (flagged : List Text) (r : Reduction) → Keeps r → Keeps (unflag_all flagged r)
  unfolding unflag_all
  unflag_all-Keeps flagged r h =
      fold_inv Keeps unflag_group flagged (λ s rg _. unflag_group-Keeps s rg) r h

  pub drop_losers-Keeps :
      (flagged : List Text) (keeper : Text) (r : Reduction)
      → Keeps r
      → Keeps (drop_losers flagged keeper r)
  unfolding drop_losers
  drop_losers-Keeps flagged keeper r h =
      fold_inv Keeps unflag_group (select (λ rg. not (rg == keeper)) flagged)
        (λ s rg _. unflag_group-Keeps s rg) r h

choose_promoted-mem :
    (d : SeadexDict) (cs : List Text) {rg : Text} → choose_promoted d cs ≡ some rg → Memᴰ rg cs
unfolding choose_promoted
choose_promoted-mem d [] e = absurd (cc)
choose_promoted-mem d (c ∷ cs) {rg} e =
    let good : Text → Bool = λ g. all_public (urls_of g d) in
    elim (Option-cases (first good (c ∷ cs))) [
      | inl n ↦ let eq : rg ≡ c = ground (arith, n, e) in Memᴰ.head eq
      | inr (x, f) ↦
          let eq : x ≡ rg = ground (arith, f, e) in rw (← eq) (first-mem good (c ∷ cs) f).0
    ]

-- What a promotion does: it flags the public urls of a group of the set that was not flagged, has
-- a public url and no fallback.
pub promoted_lem :
    (names : List Text) (d : SeadexDict) {rg : Text} {d' : SeadexDict}
    → promote_public_alternative names d ≡ some (rg, d')
    → Memᴰ rg names × (promotable d rg ≡ true) × (d' ≡ modify_urls rg (map_values flag_public) d)
unfolding promote_public_alternative
promoted_lem names d {rg} {d'} e =
    elim (Option-cases (choose_promoted d (select (promotable d) names))) [
      | inl n ↦ absurd (cc)
      | inr (x, c) ↦
          let eq : x ≡ rg = ground (arith, c, e) in
          let (m, t) = mem-select (promotable d) names (choose_promoted-mem d _ c) in
          (rw (← eq) m, rw (← eq) t, ground (arith, c, e))
    ]

any-false :
    {A : Type 0} (p : A → Bool) (xs : List A) {x : A} → any p xs ≡ false → Memᴰ x xs → p x ≡ false
any-false p xs {x} h m = elim (Bool-cases (p x)) [
  | inl t ↦ absurd (cc (any-mem p xs m t))
  | inr f ↦ f
]

module _ (d₀ : SeadexDict) (urls_unique : HasUrlKeys d₀) where
  promote-Keeps :
      (names : List Text) (r : Reduction) {rg : Text} {d' : SeadexDict} (s : PrivateOnlySkips)
      → promote_public_alternative names r.dict ≡ some (rg, d')
      → Keeps d₀ urls_unique r
      → Keeps d₀ urls_unique (record r { dict = d'; skips = s })
  unfolding promotable flag_public
  promote-Keeps names r {rg} s e h =
      let (_, t, eq) = promoted_lem names r.dict e in
      let no_fallback : is_fallback_group (urls_of rg r.dict) ≡ false = ground arith in
      record {
        refines = rw eq (
            Refines-map_urls h.refines rg flag_public λ url u v eu ev i.
              if_ind (ItemRefines u) v.is_public
                (λ p. ItemRefines-flag i (
                  MayFlag-public i p (
                    any-false (λ (x : UrlItem). x.is_fallback) _ no_fallback
                      (mem-values url (urls_of rg r.dict) ev))))
                (λ _. i));
        dropped = h.dropped;
      }

  skips-Keeps :
      (r : Reduction) (s : PrivateOnlySkips)
      → Keeps d₀ urls_unique r
      → Keeps d₀ urls_unique (record r { skips = s })
  skips-Keeps r s h = record { refines = h.refines; dropped = h.dropped }

  pub reduce_same_files_set-Keeps :
      (names flagged : List Text) (r : Reduction)
      → Keeps d₀ urls_unique r
      → Keeps d₀ urls_unique (reduce_same_files_set names flagged r)
  reduce_same_files_set-Keeps names flagged r h =
      reduce_same_files_set_cases (Keeps d₀ urls_unique) names flagged r
        (λ s. unflag_all-Keeps d₀ urls_unique flagged _ (skips-Keeps r s h))
        (λ s rg d e. unflag_all-Keeps d₀ urls_unique flagged _ (promote-Keeps names r s e h))
        (λ s keeper _. drop_losers-Keeps d₀ urls_unique flagged keeper _ (skips-Keeps r s h))

  -- Flags the urls of the references alone, each of which may be flagged.
  rescue-Refines :
      (names : List Text) (dropped : List Ref) (d : SeadexDict)
      → Refines d₀ d
      → ((ref : Ref)
          → Memᴰ ref dropped
          → (u : UrlItem) × (url_at ref.0 ref.1 d₀ ≡ some u) × MayFlag u)
      → Refines d₀ (rescue_dropped_coverage names dropped d)
  unfolding rescue_dropped_coverage rescue_step
  rescue-Refines names dropped d h may =
      fold_inv (λ st. Refines d₀ st.1) rescue_step (select (is_rescuable d) dropped)
        (λ st ref m r.
          let (u₀, e₀, ok) = may ref (mem-select (is_rescuable d) dropped m).0 in
          if_ind (λ (next : List ParsedKey × SeadexDict). Refines d₀ next.1)
            (subset (episodes_at st.1 ref) st.0) (λ _. r)
            (λ _.
              Refines-modify_url r ref.0 (flag false) ref.1
                λ u v e e' i. ItemRefines-flag i (subst MayFlag (some_inj (sym e₀ ∙ e)) ok)))
        (survivor_keys names d, d) h

-- Nothing is dropped yet.
pub start-Keeps :
    (d : SeadexDict) (h : HasUrlKeys d) (skips : PrivateOnlySkips)
    → Keeps d h (record { dict = d; skips = skips; dropped = [] })
start-Keeps d h skips = record {
  refines = Refines-refl d;
  dropped = λ ref m. absurd (Memᴰ.not-nil m);
}

pub HasUrlKeys-Refines : {d d' : SeadexDict} → Refines d d' → HasUrlKeys d → HasUrlKeys d'
HasUrlKeys-Refines r h rg = ap unique (r.url_keys rg) ∙ h rg

pub reduce_step-Refines :
    (d : SeadexDict) (skips : PrivateOnlySkips) (names : List Text)
    → HasUrlKeys d
    → Refines d (reduce_step (d, skips) names).0
unfolding reduce_step
reduce_step-Refines d skips names h =
    let flagged = select (λ rg. is_flagged (urls_of rg d)) names in
    let k = reduce_same_files_set-Keeps d h names flagged _ (start-Keeps d h skips) in
    if_ind (λ (st : SeadexDict × PrivateOnlySkips). Refines d st.0) (is_empty flagged)
      (λ _. Refines-refl d) (λ _. rescue-Refines d h names _ _ k.refines k.dropped)

-- `dedupe_urls` at one of its entries.
deduped : List (List ℕ) → UrlItem → UrlItem
deduped seen u =
    let skips = not u.download || is_empty u.size in
    if skips then u else if contains (sorted u.size) seen then unflag u else u

deduped-refines : (seen : List (List ℕ)) (u : UrlItem) → ItemRefines u (deduped seen u)
unfolding deduped
deduped-refines seen u =
    let same = ItemRefines-refl u in
    if_ind (ItemRefines u) (not u.download || is_empty u.size) (λ _. same)
      (λ _.
        if_ind (ItemRefines u) (contains (sorted u.size) seen) (λ _. ItemRefines-unflag same)
          (λ _. same))

dedupe_urls-get :
    (urls : Urls) (seen : List (List ℕ)) (url : Text) {u' : UrlItem}
    → get url (dedupe_urls seen urls) ≡ some u'
    → (u : UrlItem) × (get url urls ≡ some u) × ItemRefines u u'
unfolding dedupe_urls deduped
dedupe_urls-get [] seen url e = absurd (cc)
dedupe_urls-get ((k, u) ∷ urls) seen url {u'} e = elim (Bool-cases (url == k)) [
  | inl t ↦
      let last : deduped seen u ≡ u' = some_inj (rw t at e) in
      (u, rw t refl, subst (ItemRefines u) last (deduped-refines seen u))
  | inr t ↦ let (v, e', r) = dedupe_urls-get urls _ url (rw t at e) in (v, rw t e', r)
]

keys-dedupe_urls : (urls : Urls) (seen : List (List ℕ)) → keys (dedupe_urls seen urls) ≡ keys urls
unfolding dedupe_urls
keys-dedupe_urls [] seen = refl
keys-dedupe_urls ((k, u) ∷ urls) seen = ap (λ l. k ∷ l) (keys-dedupe_urls urls _)

pub urls_of-dedupe :
    (rg : Text) (d : SeadexDict) → urls_of rg (dedupe d) ≡ dedupe_urls [] (urls_of rg d)
unfolding dedupe dedupe_urls
urls_of-dedupe rg d =
    let f : ReleaseGroup → ReleaseGroup = λ g. record g { urls = dedupe_urls [] g.urls } in
    ground (arith, get-map_values rg f d)

dedupe-Refines : (d : SeadexDict) → Refines d (dedupe d)
unfolding dedupe
dedupe-Refines d = record {
  group_keys = keys-map_values _ d;
  url_keys = λ rg. ap keys (urls_of-dedupe rg d) ∙ keys-dedupe_urls (urls_of rg d) [];
  items = λ rg url u' e.
      dedupe_urls-get (urls_of rg d) [] url (sym (ap (get url) (urls_of-dedupe rg d)) ∙ e);
}

-- The reduction keeps the groups and their urls, changes nothing of an item but its flags, sets
-- no `upgrade` without `download`, and flags no url that was not flagged unless that url is
-- public and no fallback: it never turns to a private release, and never to a fallback.
pub reduce_overlapping_downloads-Refines :
    (interactive : Bool) (d : SeadexDict)
    → HasUrlKeys d
    → Refines d (reduce_overlapping_downloads interactive d).0
unfolding reduce_overlapping_downloads
reduce_overlapping_downloads-Refines interactive d h =
    if_ind (λ (st : SeadexDict × PrivateOnlySkips). Refines d st.0) interactive
      (λ _. Refines-refl d)
      λ _.
        let r =
          fold_inv (λ (st : SeadexDict × PrivateOnlySkips). Refines d st.0) reduce_step
            (get_same_files_groups d)
            (λ st names _ r.
              Refines-trans r (reduce_step-Refines st.0 st.1 names (HasUrlKeys-Refines r h)))
            (d, no_skips) (Refines-refl d) in
        Refines-trans r (dedupe-Refines _)
