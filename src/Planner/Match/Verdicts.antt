-- ===== src/Planner/Match/Verdicts.antt =====
-- `_group_verdicts`: which pick groups the files on disk agree with, by size.
pub mod Cover
pub mod Evidence
use pearlarr.Base.{
  ℕ, Bool, true, false, not, ◌&&◌, Option, some, List, [], ◌∷◌, ◌++◌, ltb, if◌then◌else◌, Dict,
  get_else, set_default, modify, keys, values, any, all, select, is_empty, is_some, nat_eq,
  option_eq, list_eq, fold, map,
}
use pearlarr.Text.{Text, normalize_rg}
use pearlarr.Releases.{EpisodeRecord, UrlItem, ReleaseGroup, SeadexDict}
use pearlarr.Planner.Ownership.{EpisodeIdentity}
use pearlarr.Planner.Match.{MatchContext, some_in}

-- the sizes that a url lists, of its files and of its episodes; zero proves nothing
unfoldable pub listed_sizes : UrlItem → List ℕ
listed_sizes u =
    select (λ s. ltb 0 s) u.size
    ++ select (λ s. ltb 0 s) (map (λ (ep : EpisodeRecord). ep.size) u.episodes)

abbrev pub Cover : Type 0
Cover = Dict (Option Text) (List ℕ)

unfoldable pub cover_group : Cover → Text × ReleaseGroup → Cover
cover_group cover (rg, g) =
    let norm = normalize_rg (some rg) in
    fold (λ c u. modify norm (λ l. l ++ listed_sizes u) c) (set_default norm [] cover)
      (values g.urls)

-- the sizes of the files on disk, under the group that each answers to
abbrev pub Attributed : Type 0
Attributed = Dict (Option Text) (List (Option ℕ))

unfoldable pub attribute : Attributed → EpisodeIdentity → Attributed
attribute a i = modify i.group (λ l. l ++ i.size ∷ []) (set_default i.group [] a)

unfoldable pub tag_entry : Text × List ℕ → Option Text × List (Option ℕ)
tag_entry (norm, sizes) = (some norm, map some sizes)

unfoldable pub attributed : MatchContext → Attributed
attributed ctx =
    if ctx.has_ep_list
    then fold attribute [] (values ctx.episode_identities)
    else map tag_entry ctx.arr_sizes_by_norm

pub record GroupVerdicts : Type 0 where
  pub current_groups : List Text
  pub stale_groups : List Text

-- the appends of the loop
add_current : Text → GroupVerdicts → GroupVerdicts
add_current rg v = record v { current_groups = v.current_groups ++ rg ∷ [] }

add_stale : Text → GroupVerdicts → GroupVerdicts
add_stale rg v = record v { stale_groups = v.stale_groups ++ rg ∷ [] }

-- one group: its files on disk against its listed sizes
judge : List (Option ℕ) → List ℕ → Text → GroupVerdicts → GroupVerdicts
judge files listed rg v =
    if is_empty files
    then add_current rg v
    else if is_empty listed
    then v
    else if all (λ size. some_in size listed) files
    then add_current rg v
    else if any (λ size. is_some size && not (some_in size listed)) files
    then add_stale rg v
    else v

judge_group : Cover → Attributed → GroupVerdicts → Text → GroupVerdicts
judge_group cover files v rg =
    let norm = normalize_rg (some rg) in
    judge (get_else norm [] files) (get_else norm [] cover) rg v

unfoldable pub group_verdicts : SeadexDict → MatchContext → GroupVerdicts
unfolding cover_group attributed attribute tag_entry listed_sizes judge_group judge add_current
    add_stale
group_verdicts d ctx =
    fold (judge_group (fold cover_group [] d) (attributed ctx))
      (record { current_groups = []; stale_groups = [] }) (keys d)
