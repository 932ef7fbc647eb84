-- ===== src/Planner/Match.antt =====
-- The per-url matchers of `DownloadPlanner` and what they read: `_MatchContext`,
-- `_window_in_place`, `_group_verdicts`. The fields that feed log lines alone are left out. A
-- matcher changes its own url and nothing else, so it is a function of that item.
pub mod Verdicts
pub mod Flags
use pearlarr.Base.{
  ℕ, Bool, true, false, not, ◌&&◌, ◌||◌, Option, none, some, List, [], ◌∷◌, ◌++◌, ◌==◌, ltb,
  if◌then◌else◌, Dict, get, get_else, put, set_default, modify, keys, values, contains, any, all,
  select, is_empty, is_some, Counter, nat_eq, option_eq, list_eq, fold, map,
}
use pearlarr.Text.{Text, normalize_rg}
use pearlarr.Releases.{
  EpisodeRecord, EpisodeKey, key_eq, season_episode_key, UrlItem, ReleaseGroup, SeadexDict,
  SonarrEpisode, flag, hand_import, unambiguous,
}
use pearlarr.Planner.Ownership.{
  owns_untagged_copy, doubled_sizes, EpisodeCoverage, EpisodeIdentity, Index,
}

pub record MatchContext : Type 0 where
  pub arr_sizes_by_norm : Dict Text (List ℕ)
  pub overlapping_results : Bool
  pub sonarr_by_key : Index
  pub episode_identities : Dict EpisodeKey EpisodeIdentity
  pub untagged_counter : Option (Counter ℕ)
  pub coverage : EpisodeCoverage
  pub has_ep_list : Bool

-- membership of a value that may be None
abbrev pub some_in : Option ℕ → List ℕ → Bool
some_in none l = false
some_in (some n) l = contains n l

abbrev pub name_in : Option Text → List Text → Bool
name_in none l = false
name_in (some n) l = contains n l

-- one episode of `_window_in_place`
unfoldable pub episode_in_place : MatchContext → Option Text → List ℕ → EpisodeKey → Bool
episode_in_place ctx seadex_norm listed_sizes key = elim (get key ctx.episode_identities) [
  | none ↦ false
  | some identity ↦ elim identity.group [
    | none ↦ false
    | some group ↦
        let covering = get_else key [] ctx.coverage.by_key in
        if some group == seadex_norm
        then some_in identity.size listed_sizes || name_in seadex_norm covering
        else contains group ctx.coverage.blanket || contains group covering
  ]
]

unfoldable pub window_in_place : MatchContext → Option Text → List ℕ → Bool
unfolding episode_in_place
window_in_place ctx seadex_norm listed_sizes =
    all (episode_in_place ctx seadex_norm listed_sizes) (keys ctx.sonarr_by_key)

-- `set(a).isdisjoint(b)`
abbrev pub disjoint : List ℕ → List ℕ → Bool
disjoint a b = not (any (λ n. contains n b) a)

unfoldable pub match_url_no_episodes : MatchContext → Text → UrlItem → UrlItem
match_url_no_episodes ctx seadex_rg u =
    let held = elim (normalize_rg (some seadex_rg)) as (λ _. Option (List ℕ)) [
      | none ↦ none
      | some norm ↦ get norm ctx.arr_sizes_by_norm
    ] in
    elim held [
      | some arr_file_sizes ↦
          if not (is_empty u.size) && disjoint u.size arr_file_sizes then flag true u else u
      | none ↦
          if owns_untagged_copy ctx.untagged_counter u.size
          then u
          else if not ctx.overlapping_results
          then flag false u
          else u
    ]

-- What the loop of `_match_url_episodes` keeps. `marks` has one (rg_match, size_match) for each
-- episode of the url, in order.
pub record EpisodeScan : Type 0 where
  pub item : UrlItem
  pub marks : List (Bool × Bool)
  pub listed_pairs : List (EpisodeKey × ℕ)
  pub held_by_key : Dict EpisodeKey ℕ

unfoldable pub episode_size : SonarrEpisode → Option ℕ
episode_size ep = elim ep.episode_file [ none ↦ none | some file ↦ file.size ]

module _ (ctx : MatchContext) (seadex_norm : Option Text) where
  -- an episode of the url that Sonarr has, at its key
  unfoldable pub scan_known : EpisodeScan → EpisodeKey → ℕ → SonarrEpisode → EpisodeScan
  unfolding episode_size
  scan_known st key listed_size sonarr_ep =
      let sonarr_size = episode_size sonarr_ep in
      let size_match = is_some sonarr_size && (sonarr_size == some listed_size) in
      let identity = get key ctx.episode_identities in
      let sonarr_norm = elim identity as (λ _. Option Text) [ none ↦ none | some i ↦ i.group ] in
      let size_identified = elim identity as (λ _. Bool) [ none ↦ false | some i ↦ i.by_size ] in
      let foreign =
        not (sonarr_norm == seadex_norm) && not (name_in sonarr_norm ctx.coverage.blanket) in
      let covered = name_in sonarr_norm (get_else key [] ctx.coverage.by_key) in
      let holds = is_some seadex_norm && (sonarr_norm == seadex_norm) in
      record {
        item = if foreign && not covered then flag false st.item else st.item;
        marks = st.marks ++ (not foreign && not size_identified, size_match) ∷ [];
        listed_pairs = st.listed_pairs ++ (key, listed_size) ∷ [];
        held_by_key = elim sonarr_size [
          | none ↦ st.held_by_key
          | some size ↦ if not foreign && holds then put key size st.held_by_key else st.held_by_key
        ];
      }

  -- an episode that keys into nothing here
  unfoldable pub scan_skipped : EpisodeScan → EpisodeScan
  scan_skipped st = record st { marks = st.marks ++ (false, false) ∷ [] }

  unfoldable pub scan_episode : EpisodeScan → EpisodeRecord → EpisodeScan
  scan_episode st ep = elim ep.season [
    | none ↦ scan_skipped st
    | some season ↦ elim ep.episode [
      | none ↦ scan_skipped st
      | some episode ↦
          let key = season_episode_key (some season) (some episode) in
          elim (get key ctx.sonarr_by_key) [
            | none ↦ scan_skipped st
            | some sonarr_ep ↦ scan_known st key ep.size sonarr_ep
          ]
    ]
  ]

-- `compress(size_matches, rg_matches)`
unfoldable pub compress : List (Bool × Bool) → List Bool
compress [] = []
compress ((rg_match, size_match) ∷ marks) =
    let rest = compress marks in if rg_match then size_match ∷ rest else rest

unfoldable pub match_url_episodes : MatchContext → Text → UrlItem → UrlItem
unfolding compress
match_url_episodes ctx seadex_rg u =
    let start : EpisodeScan = record {
      item = u;
      marks = [];
      listed_pairs = [];
      held_by_key = [];
    } in
    let st = fold (scan_episode ctx (normalize_rg (some seadex_rg))) start u.episodes in
    let matched_sizes = compress st.marks in
    let stale = not (is_empty matched_sizes) && not (any (λ b. b) matched_sizes) in
    let doubled = doubled_sizes (unambiguous st.listed_pairs) st.held_by_key u.size in
    let item = if stale then flag true st.item else st.item in
    if not ctx.has_ep_list then u else if not (is_empty doubled) then flag true item else item

unfoldable pub match_url_refused : MatchContext → Text → UrlItem → UrlItem
match_url_refused ctx seadex_rg u =
    let seadex_norm = normalize_rg (some seadex_rg) in
    if not ctx.has_ep_list
    then u
    else if window_in_place ctx seadex_norm u.size
    then u
    else flag (name_in seadex_norm (keys ctx.arr_sizes_by_norm)) u

-- the branch of the url loop of `filter_by_release_group`
unfoldable pub match_url : MatchContext → Text → UrlItem → UrlItem
match_url ctx seadex_rg u =
    if hand_import u
    then match_url_refused ctx seadex_rg u
    else if is_empty u.episodes
    then match_url_no_episodes ctx seadex_rg u
    else match_url_episodes ctx seadex_rg u
