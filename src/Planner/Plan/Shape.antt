-- ===== src/Planner/Plan/Shape.antt =====
-- What a plan leaves alone of the dictionary that it is given.
use pearlarr.Base.{
  arith, ◌≡◌, refl, ap, sym, ◌∙◌, inl, inr, Option, some, List, [], ◌∷◌, map_values, get-map_values,
  contains, if_ind, Bool-cases, Option-cases, some_inj, get, nat_eq, list_eq, option_eq,
}
use mathlib.Core.Option
use pearlarr.Text.{Text}
use pearlarr.Releases.{
  UrlItem, ReleaseGroup, SeadexDict, SonarrEpisode, ArrReleases, flag, unflag, url_at,
}
use pearlarr.Planner.Match.{MatchContext, match_url}
use pearlarr.Planner.Match.Flags.{match_url-Raised}
use pearlarr.Planner.Reduce.Shape.{
  without_flags, map_values-LeavesUrls, without_flags-reduce_overlapping_downloads, LeavesUrls,
}
use pearlarr.Planner.Plan.{
  DownloadPlanner, hash_url, match_groups, filter_by_release_group, filter_by_torrent_hash, plan,
}

unflag-hash_url :
    (cached : List (Option Text)) (u : UrlItem) → unflag (hash_url cached u) ≡ unflag u
unfolding hash_url flag unflag
unflag-hash_url cached u =
    if_ind (λ (v : UrlItem). unflag v ≡ unflag u) (contains u.infohash cached) (λ _. refl)
      (λ _. refl)

without_flags-match_groups :
    (ctx : MatchContext) (d : SeadexDict) → without_flags (match_groups ctx d) ≡ without_flags d
unfolding match_groups without_flags LeavesUrls
without_flags-match_groups ctx [] = refl
without_flags-match_groups ctx ((rg, g) ∷ d) =
    rw
      (
        map_values-LeavesUrls (match_url ctx rg) (λ u. (match_url-Raised ctx rg u).same) g.urls,
        without_flags-match_groups ctx d,
      )
      refl

without_flags-hash_urls :
    (cached : List (Option Text)) (d : SeadexDict)
    → without_flags (
        map_values {V = ReleaseGroup} {W = ReleaseGroup}
          (λ g. record g { urls = map_values (hash_url cached) g.urls })
          d)
      ≡ without_flags d
unfolding without_flags LeavesUrls
without_flags-hash_urls cached [] = refl
without_flags-hash_urls cached ((rg, g) ∷ d) =
    rw
      (
        map_values-LeavesUrls (hash_url cached) (unflag-hash_url cached) g.urls,
        without_flags-hash_urls cached d,
      )
      refl

-- A plan, by release group or by hash, changes the flags of urls alone: with every flag taken back, its dictionary is
-- the given one, with the same groups, tags and episodes and the same urls with all that they list, in the same order.
pub without_flags-plan :
    (p : DownloadPlanner) (d : SeadexDict) (arr_releases : ArrReleases)
    (cached : List (Option Text)) (ep_list : Option (List SonarrEpisode))
    → without_flags (plan p d arr_releases cached ep_list).seadex_dict ≡ without_flags d
unfolding plan filter_by_release_group filter_by_torrent_hash
without_flags-plan p d arr_releases cached ep_list =
    elim (Bool-cases p.use_torrent_hash_to_filter) [
      | inl h ↦ rw h (
          without_flags-reduce_overlapping_downloads p.interactive _
          ∙ without_flags-hash_urls cached d)
      | inr h ↦ rw h (
          without_flags-reduce_overlapping_downloads p.interactive _
          ∙ without_flags-match_groups _ d)
    ]

module _ (rg url : Text) where
  url_at-without_flags :
      (d : SeadexDict) → url_at rg url (without_flags d) ≡ Option.map unflag (url_at rg url d)
  unfolding without_flags
  url_at-without_flags d =
      let f : ReleaseGroup → ReleaseGroup = λ g. record g { urls = map_values unflag g.urls } in
      elim (Option-cases (get rg d)) [
        | inl n ↦ ground (arith, get-map_values rg f d, n)
        | inr (g, e) ↦ ground (arith, get-map_values rg f d, e, get-map_values url unflag g.urls)
      ]

  -- A url of a dictionary is one of any other of the same shape, with all that it lists.
  pub without_flags-url_at :
      (d d' : SeadexDict) {v : UrlItem}
      → without_flags d' ≡ without_flags d
      → url_at rg url d' ≡ some v
      → (u : UrlItem) × (url_at rg url d ≡ some u) × (unflag v ≡ unflag u)
  without_flags-url_at d d' {v} same e =
      let read : Option.map unflag (url_at rg url d) ≡ some (unflag v) =
        sym (url_at-without_flags d)
        ∙ ap (url_at rg url) (sym same)
        ∙ url_at-without_flags d'
        ∙ ap (Option.map unflag) e in
      elim (Option-cases (url_at rg url d)) [
        | inl n ↦ absurd (cc (sym read ∙ ap (Option.map unflag) n))
        | inr (u, f) ↦ (u, f, some_inj (sym read ∙ ap (Option.map unflag) f))
      ]
