-- ===== src/Planner/Match/Flags.antt =====
-- What the matchers change of an item: its flags, upwards.
use pearlarr.Base.{
  ℕ, Bool, true, false, ◌≡◌, refl, Option, none, some, List, [], if◌then◌else◌, if_ind, fold_inv,
  get, nat_eq, list_eq,
}
use pearlarr.Text.{Text, normalize_rg}
use pearlarr.Releases.{EpisodeRecord, key_eq, UrlItem, flag, unflag, season_episode_key}
use pearlarr.Releases.Flags.{IsSound}
use pearlarr.Planner.Match.{
  MatchContext, match_url, match_url_no_episodes, match_url_episodes, match_url_refused,
  EpisodeScan, scan_episode, scan_known, scan_skipped,
}

-- The item as it was but for flags that went up, an upgrade never without its grab.
pub record Raised (u v : UrlItem) : Type 0 where
  pub same : unflag v ≡ unflag u
  pub kept : u.download ≡ true → v.download ≡ true
  pub sound : IsSound u → IsSound v

Raised-refl : (u : UrlItem) → Raised u u
Raised-refl u = record { same = refl; kept = λ h. h; sound = λ h. h }

Raised-flag : {u v : UrlItem} (upgrade : Bool) → Raised u v → Raised u (flag upgrade v)
unfolding flag unflag
Raised-flag upgrade r = record { same = r.same; kept = λ h. refl; sound = λ h k. refl }

-- A case on an option, for a predicate of the outcome.
option_ind :
    {A B : Type 0} (Q : B → Type 0) (o : Option A) {x : B} {f : A → B}
    → Q x
    → ((a : A) → Q (f a))
    → Q (elim o as (λ _. B) [ none ↦ x | some a ↦ f a ])
option_ind Q none q h = q
option_ind Q (some a) q h = h a

module _ (ctx : MatchContext) (seadex_rg : Text) (u : UrlItem) where
  Raised-if : (b : Bool) {v w : UrlItem} → Raised u v → Raised u w → Raised u (if b then v else w)
  Raised-if b r s = if_ind (Raised u) b (λ _. r) (λ _. s)

  match_url_no_episodes-Raised : Raised u (match_url_no_episodes ctx seadex_rg u)
  unfolding match_url_no_episodes
  match_url_no_episodes-Raised =
      option_ind (Raised u)
        (elim (normalize_rg (some seadex_rg)) as (λ _. Option (List ℕ)) [
          | none ↦ none
          | some norm ↦ get norm ctx.arr_sizes_by_norm
        ])
        (Raised-if _ (Raised-refl u)
          (Raised-if _ (Raised-flag false (Raised-refl u)) (Raised-refl u)))
        (λ sizes. Raised-if _ (Raised-flag true (Raised-refl u)) (Raised-refl u))

  match_url_refused-Raised : Raised u (match_url_refused ctx seadex_rg u)
  unfolding match_url_refused
  match_url_refused-Raised =
      Raised-if _ (Raised-refl u) (Raised-if _ (Raised-refl u) (Raised-flag _ (Raised-refl u)))

  scan_episode-Raised :
      (norm : Option Text) (st : EpisodeScan) (ep : EpisodeRecord)
      → Raised u st.item
      → Raised u (scan_episode ctx norm st ep).item
  unfolding scan_episode scan_known scan_skipped
  scan_episode-Raised norm st ep r =
      let Q : EpisodeScan → Type 0 = λ st'. Raised u st'.item in
      option_ind Q ep.season r (λ season. option_ind Q ep.episode r (λ episode.
        option_ind Q (get (season_episode_key (some season) (some episode)) ctx.sonarr_by_key) r
          (λ sonarr_ep. Raised-if _ (Raised-flag false r) r)))

  match_url_episodes-Raised : Raised u (match_url_episodes ctx seadex_rg u)
  unfolding match_url_episodes
  match_url_episodes-Raised =
      let scanned =
        fold_inv (λ (st : EpisodeScan). Raised u st.item)
          (scan_episode ctx (normalize_rg (some seadex_rg))) u.episodes
          (λ st ep _. scan_episode-Raised (normalize_rg (some seadex_rg)) st ep)
          (record { item = u; marks = []; listed_pairs = []; held_by_key = [] }) (Raised-refl u) in
      let item = Raised-if _ (Raised-flag true scanned) scanned in
      Raised-if _ (Raised-refl u) (Raised-if _ (Raised-flag true item) item)

  -- Whatever branch decides a url, the matcher changes its flags alone, takes no flag away and never
  -- leaves an upgrade without its grab.
  pub match_url-Raised : Raised u (match_url ctx seadex_rg u)
  unfolding match_url
  match_url-Raised =
      Raised-if _ match_url_refused-Raised
        (Raised-if _ match_url_no_episodes-Raised match_url_episodes-Raised)
