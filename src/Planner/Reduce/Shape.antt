-- ===== src/Planner/Reduce/Shape.antt =====
-- `reduce_overlapping_downloads`, by what it leaves alone: a dictionary but for its flags.
use pearlarr.Base.{
  ℕ, Bool, false, not, some, if◌then◌else◌, ◌||◌, ◌≡◌, refl, ap, ◌∙◌, inl, inr, List, [], ◌∷◌, ◌==◌,
  modify, map_values, is_empty, contains, subset, sorted, select, fold_inv, if_ind, Bool-cases,
  nat_eq, list_eq, option_eq, pair_eq,
}
use pearlarr.Text.{Text}
use pearlarr.Releases.{
  UrlItem, ReleaseGroup, SeadexDict, flag, unflag, modify_urls, modify_url, urls_of,
}
use pearlarr.Planner.Types.{PrivateOnlySkips, no_skips}
use pearlarr.Planner.Coverage.{ParsedKey, get_same_files_groups}
use pearlarr.Planner.Reduce.{
  Urls, Ref, Reduction, is_flagged, unflag_group, unflag_all, drop_losers, flag_public,
  promote_public_alternative, reduce_same_files_set, is_rescuable, episodes_at, survivor_keys,
  rescue_step, rescue_dropped_coverage, dedupe_urls, dedupe, reduce_step,
  reduce_overlapping_downloads,
}
use pearlarr.Planner.Reduce.Outcomes.{reduce_same_files_set_cases}
use pearlarr.Planner.Reduce.Safety.{promoted_lem}

-- a dictionary with every flag taken back
unfoldable pub without_flags : SeadexDict → SeadexDict
without_flags d =
    map_values {V = ReleaseGroup} {W = ReleaseGroup}
      (λ g. record g { urls = map_values unflag g.urls }) d

-- a change of urls that leaves all but their flags
unfoldable pub LeavesUrls : (Urls → Urls) → Type 0
LeavesUrls f = (urls : Urls) → map_values unflag (f urls) ≡ map_values unflag urls

pub map_values-LeavesUrls :
    (f : UrlItem → UrlItem) → ((u : UrlItem) → unflag (f u) ≡ unflag u) → LeavesUrls (map_values f)
unfolding LeavesUrls
map_values-LeavesUrls f h [] = refl
map_values-LeavesUrls f h ((url, u) ∷ urls) = rw (h u, map_values-LeavesUrls f h urls) refl

modify-LeavesUrls :
    (url : Text) (f : UrlItem → UrlItem)
    → ((u : UrlItem) → unflag (f u) ≡ unflag u)
    → LeavesUrls (modify url f)
unfolding LeavesUrls
modify-LeavesUrls url f h [] = refl
modify-LeavesUrls url f h ((key, u) ∷ urls) = elim (Bool-cases (url == key)) [
  | inl t ↦ rw (t, h u, modify-LeavesUrls url f h urls) refl
  | inr t ↦ rw (t, modify-LeavesUrls url f h urls) refl
]

dedupe_urls-leaves :
    (seen : List (List ℕ)) (urls : Urls)
    → map_values unflag (dedupe_urls seen urls) ≡ map_values unflag urls
unfolding dedupe_urls unflag
dedupe_urls-leaves seen [] = refl
dedupe_urls-leaves seen ((url, u) ∷ urls) =
    let same =
      if_ind (λ (v : UrlItem). unflag v ≡ unflag u) (not u.download || is_empty u.size) (λ _. refl)
        (λ _.
          if_ind (λ (v : UrlItem). unflag v ≡ unflag u) (contains (sorted u.size) seen) (λ _. refl)
            (λ _. refl)) in
    let known = not u.download || is_empty u.size || contains (sorted u.size) seen in
    let next = if known then seen else sorted u.size ∷ seen in
    ap (λ v. (url, v) ∷ map_values unflag (dedupe_urls next urls)) same
    ∙ ap (λ rest. (url, unflag u) ∷ rest) (dedupe_urls-leaves next urls)

without_flags-modify_urls :
    (rg : Text) (f : Urls → Urls) (d : SeadexDict)
    → LeavesUrls f
    → without_flags (modify_urls rg f d) ≡ without_flags d
unfolding without_flags modify_urls LeavesUrls
without_flags-modify_urls rg f [] h = refl
without_flags-modify_urls rg f ((key, g) ∷ d) h = elim (Bool-cases (rg == key)) [
  | inl t ↦ rw (t, h g.urls, without_flags-modify_urls rg f d h) refl
  | inr t ↦ rw (t, without_flags-modify_urls rg f d h) refl
]

module _ (d₀ : SeadexDict) where
  -- the same but for the flags
  SameShape : SeadexDict → Type 0
  SameShape d = without_flags d ≡ without_flags d₀

  unflag_group-SameShape :
      (r : Reduction) (rg : Text) → SameShape r.dict → SameShape (unflag_group r rg).dict
  unfolding unflag_group SameShape unflag
  unflag_group-SameShape r rg h =
      without_flags-modify_urls rg _ r.dict (map_values-LeavesUrls unflag (λ u. refl)) ∙ h

  unflag_all-SameShape :
      (flagged : List Text) (r : Reduction)
      → SameShape r.dict
      → SameShape (unflag_all flagged r).dict
  unfolding unflag_all
  unflag_all-SameShape flagged =
      fold_inv (λ (s : Reduction). SameShape s.dict) unflag_group flagged
        (λ s rg _. unflag_group-SameShape s rg)

  drop_losers-SameShape :
      (flagged : List Text) (keeper : Text) (r : Reduction)
      → SameShape r.dict
      → SameShape (drop_losers flagged keeper r).dict
  unfolding drop_losers
  drop_losers-SameShape flagged keeper =
      fold_inv (λ (s : Reduction). SameShape s.dict) unflag_group
        (select (λ rg. not (rg == keeper)) flagged) (λ s rg _. unflag_group-SameShape s rg)

  unflag-flag_public : (u : UrlItem) → unflag (flag_public u) ≡ unflag u
  unfolding flag_public flag unflag
  unflag-flag_public u =
      if_ind (λ (v : UrlItem). unflag v ≡ unflag u) u.is_public (λ _. refl) (λ _. refl)

  promote-SameShape :
      (names : List Text) (d : SeadexDict) {rg : Text} {d' : SeadexDict}
      → promote_public_alternative names d ≡ some (rg, d')
      → SameShape d
      → SameShape d'
  unfolding SameShape
  promote-SameShape names d {rg} {d'} e h =
      let (_, _, eq) = promoted_lem names d e in
      ap without_flags eq
      ∙ without_flags-modify_urls rg _ d (map_values-LeavesUrls flag_public unflag-flag_public)
      ∙ h

  reduce_same_files_set-SameShape :
      (names flagged : List Text) (r : Reduction)
      → SameShape r.dict
      → SameShape (reduce_same_files_set names flagged r).dict
  reduce_same_files_set-SameShape names flagged r h =
      reduce_same_files_set_cases (λ (s : Reduction). SameShape s.dict) names flagged r
        (λ s. unflag_all-SameShape flagged _ h)
        (λ s rg d e. unflag_all-SameShape flagged _ (promote-SameShape names r.dict e h))
        (λ s keeper _. drop_losers-SameShape flagged keeper _ h)

  rescue-SameShape :
      (names : List Text) (dropped : List Ref) (d : SeadexDict)
      → SameShape d
      → SameShape (rescue_dropped_coverage names dropped d)
  unfolding rescue_dropped_coverage rescue_step modify_url flag unflag SameShape
  rescue-SameShape names dropped d =
      fold_inv (λ (st : List ParsedKey × SeadexDict). SameShape st.1) rescue_step
        (select (is_rescuable d) dropped)
        (λ st ref _ h.
          if_ind (λ (next : List ParsedKey × SeadexDict). SameShape next.1)
            (subset (episodes_at st.1 ref) st.0) (λ _. h)
            (λ _.
              without_flags-modify_urls ref.0 _ st.1
                (modify-LeavesUrls ref.1 (flag false) (λ u. refl))
              ∙ h))
        (survivor_keys names d, d)

  reduce_step-SameShape :
      (st : SeadexDict × PrivateOnlySkips) (names : List Text)
      → SameShape st.0
      → SameShape (reduce_step st names).0
  unfolding reduce_step
  reduce_step-SameShape st names h =
      let flagged = select (λ rg. is_flagged (urls_of rg st.0)) names in
      if_ind (λ (next : SeadexDict × PrivateOnlySkips). SameShape next.0) (is_empty flagged)
        (λ _. h)
        (λ _. rescue-SameShape names _ _ (reduce_same_files_set-SameShape names flagged _ h))

without_flags-dedupe : (d : SeadexDict) → without_flags (dedupe d) ≡ without_flags d
unfolding without_flags dedupe
without_flags-dedupe [] = refl
without_flags-dedupe ((rg, g) ∷ d) = rw (dedupe_urls-leaves [] g.urls, without_flags-dedupe d) refl

pub without_flags-reduce_overlapping_downloads :
    (interactive : Bool) (d : SeadexDict)
    → without_flags (reduce_overlapping_downloads interactive d).0 ≡ without_flags d
unfolding reduce_overlapping_downloads SameShape
without_flags-reduce_overlapping_downloads interactive d =
    if_ind (λ (st : SeadexDict × PrivateOnlySkips). without_flags st.0 ≡ without_flags d)
      interactive (λ _. refl)
      (λ _.
        without_flags-dedupe _
        ∙ fold_inv (λ (st : SeadexDict × PrivateOnlySkips). SameShape d st.0) reduce_step
            (get_same_files_groups d) (λ st names _. reduce_step-SameShape d st names) (d, no_skips)
            refl)
