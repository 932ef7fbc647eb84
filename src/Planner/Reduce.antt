-- ===== src/Planner/Reduce.antt =====
-- `DownloadPlanner.reduce_overlapping_downloads` and the methods and helpers under it. A release
-- group is read by its name: where Python would look up a name that is no key, `urls_of` has no
-- url, which no caller meets (the names are those of `get_same_files_groups`). A reference to an
-- item, such as those that `_SameFilesSet.dropped` collects, is its group and its key.
pub mod Refines
pub mod Outcomes
pub mod Safety
pub mod Accounts
pub mod Survivors
pub mod Rescue
pub mod Lossless
pub mod Frame
pub mod Loop
pub mod Partition
pub mod Shape
pub mod Flagging
pub mod Complete
pub mod Dedupe
mod Tests
use pearlarr.Base.{
  sorted, ℕ, Bool, true, false, not, ◌&&◌, ◌||◌, Option, none, some, List, [], ◌∷◌, ◌++◌, ◌==◌, leb,
  if◌then◌else◌, Dict, values, map_values, contains, subset, any, all, select, first, is_empty,
  nat_eq, list_eq, option_eq, pair_eq, map, fold,
}
use pearlarr.Text.{Text, text}
use pearlarr.Releases.{
  ReleaseGroup, UrlItem, SeadexDict, flag, unflag, modify_urls, modify_url, urls_of, url_at,
}
use pearlarr.Planner.Types.{PrivateOnlySkips, no_skips, info, warning}
use pearlarr.Planner.Coverage.{ParsedKey, get_episode_keys, get_same_files_groups}

abbrev pub Urls : Type 0
Urls = Dict Text UrlItem

-- `_is_flagged`, `_is_public_group`, `_is_fallback_group`, `_all_public`, `_flagged_all_addable`
abbrev pub is_flagged : Urls → Bool
is_flagged urls = any (λ u. u.download) (values urls)

abbrev pub is_public_group : Urls → Bool
is_public_group urls = any (λ u. u.is_public) (values urls)

abbrev pub is_fallback_group : Urls → Bool
is_fallback_group urls = any (λ u. u.is_fallback) (values urls)

abbrev pub all_public : Urls → Bool
all_public urls = all (λ u. u.is_public) (values urls)

abbrev pub flagged_all_addable : Urls → Bool
flagged_all_addable urls = all (λ u. not u.download || u.is_public) (values urls)

abbrev pub upgrades : Urls → Bool
upgrades urls = any (λ u. u.upgrade) (values urls)

abbrev pub Ref : Type 0
Ref = Text × Text

-- What the reduction of one set changes.
pub record Reduction : Type 0 where
  pub dict : SeadexDict
  pub skips : PrivateOnlySkips
  pub dropped : List Ref

-- the keys of the urls that are flagged
pub flagged_keys : Urls → List Text
flagged_keys [] = []
flagged_keys ((url, u) ∷ urls) =
    let rest = flagged_keys urls in if u.download then url ∷ rest else rest

-- `_unflag`
pub unflag_group : Reduction → Text → Reduction
unflag_group r rg = record r {
  dict = modify_urls rg (map_values unflag) r.dict;
  dropped = r.dropped ++ map (λ url. (rg, url)) (flagged_keys (urls_of rg r.dict));
}

-- `_unflag_all`
pub unflag_all : List Text → Reduction → Reduction
unflag_all flagged r = fold unflag_group r flagged

-- `_drop_losers`
pub drop_losers : List Text → Text → Reduction → Reduction
drop_losers flagged keeper r = fold unflag_group r (select (λ rg. not (rg == keeper)) flagged)

pub add_notice : List Text → Text → Bool → PrivateOnlySkips → PrivateOnlySkips
add_notice groups reason warns s = record s {
  notices =
      s.notices
      ++ record { groups = groups; reason = reason; severity = if warns then warning else info }
        ∷ [];
}

-- `_promotion_notice`
pub promotion_notice : List Text → Text → Text → PrivateOnlySkips → PrivateOnlySkips
promotion_notice groups prefix promoted s =
    add_notice groups (prefix ++ text "; grabbing public alternative " ++ promoted) false s

pub promotable : SeadexDict → Text → Bool
promotable d rg =
    let urls = urls_of rg d in
    not (is_flagged urls) && is_public_group urls && not (is_fallback_group urls)

pub flag_public : UrlItem → UrlItem
flag_public u = if u.is_public then flag false u else u

-- the promoted group among the candidates
pub choose_promoted : SeadexDict → List Text → Option Text
choose_promoted d [] = none
choose_promoted d (c ∷ cs) = elim (first (λ rg. all_public (urls_of rg d)) (c ∷ cs)) [
  | none ↦ some c
  | some rg ↦ some rg
]

-- `_promote_public_alternative`, with the dictionary that it changes
pub promote_public_alternative : List Text → SeadexDict → Option (Text × SeadexDict)
promote_public_alternative names d = elim (choose_promoted d (select (promotable d) names)) [
  | none ↦ none
  | some rg ↦ some (rg, modify_urls rg (map_values flag_public) d)
]

module _ (flagged : List Text) where
  -- A promoted group stands in for the flagged ones.
  pub stand_in : Text → Text → SeadexDict → Reduction → Reduction
  stand_in prefix promoted d r =
      unflag_all flagged
        (record r { dict = d; skips = promotion_notice flagged prefix promoted r.skips })

  -- Nothing public stands in: the set is skipped with a warning.
  pub hold_set : Bool → Reduction → Reduction
  hold_set fallback_rides r =
      let reason =
        if fallback_rides
        then text
            "private-only; your copy is outdated (its file size no longer matches the release) and only a fallback covers it"
        else text "private-only (private releases not supported)" in
      let s = add_notice flagged reason true r.skips in
      unflag_all flagged (record r {
        skips = record s {
          stale_held = if fallback_rides then true else s.stale_held;
          skipped = true;
          groups = s.groups ++ flagged;
        };
      })

  -- The arr owns the files of the public fallback.
  pub soft_skip : Reduction → Reduction
  soft_skip r =
      let s =
        add_notice flagged (text "private-only; a public fallback already covers these files") false
          r.skips in
      unflag_all flagged (record r { skips = record s { fallback_covered = true } })

  -- the end of the public branch: the fallback notice, then the losers
  pub settle : Text → Reduction → Reduction
  settle keeper r =
      let private_dropped = select (λ rg. not (is_public_group (urls_of rg r.dict))) flagged in
      let noticed =
        if not (is_empty private_dropped) && is_fallback_group (urls_of keeper r.dict)
        then add_notice private_dropped (text "private-only; falling back to " ++ keeper) false
            r.skips
        else r.skips in
      drop_losers flagged keeper (record r { skips = noticed })

module _ (names flagged : List Text) where
  -- the branch of no flagged public group
  pub reduce_private : Bool → Reduction → Reduction
  reduce_private upgrade_pending r =
      let fallback_rides = any (λ rg. is_fallback_group (urls_of rg r.dict)) names in
      let held = hold_set flagged fallback_rides r in
      if upgrade_pending
      then elim (promote_public_alternative names r.dict) [
        | some (promoted, d) ↦ stand_in flagged (text "private-only") promoted d r
        | none ↦ held
      ]
      else if fallback_rides
      then soft_skip flagged r
      else held

  -- no flagged public group has addable urls alone; `degraded` is the first of them
  pub reduce_mixed : Text → Bool → Reduction → Reduction
  reduce_mixed degraded upgrade_pending r =
      let rides =
        any (λ rg. not (is_flagged (urls_of rg r.dict)) && is_fallback_group (urls_of rg r.dict))
          names in
      let stale = if rides then record r.skips { stale_held = true } else r.skips in
      if upgrade_pending
      then elim (promote_public_alternative names r.dict) [
        | some (promoted, d) ↦ stand_in flagged (text "remaining files private-only") promoted d r
        | none ↦ settle flagged degraded (record r { skips = stale })
      ]
      else settle flagged degraded r

  -- the end of `_reduce_same_files_set`, by its flagged public groups
  pub reduce_by_public : List Text → Bool → Reduction → Reduction
  reduce_by_public [] upgrade_pending r = reduce_private upgrade_pending r
  reduce_by_public (p ∷ ps) upgrade_pending r =
      elim (first (λ rg. flagged_all_addable (urls_of rg r.dict)) (p ∷ ps)) [
        | some keeper ↦ settle flagged keeper r
        | none ↦ reduce_mixed p upgrade_pending r
      ]

  -- `_reduce_same_files_set`
  pub reduce_same_files_set : Reduction → Reduction
  reduce_same_files_set r =
      let upgrade_pending = any (λ rg. upgrades (urls_of rg r.dict)) flagged in
      let public_flagged = select (λ rg. is_public_group (urls_of rg r.dict)) flagged in
      reduce_by_public public_flagged upgrade_pending r

-- `_rescue_dropped_coverage`: the keys of the urls that survive
pub carried_keys : List UrlItem → List ParsedKey
carried_keys [] = []
carried_keys (u ∷ us) =
    let rest = carried_keys us in
    if u.download && u.is_public then get_episode_keys u.episodes ++ rest else rest

pub survivor_keys : List Text → SeadexDict → List ParsedKey
survivor_keys [] d = []
survivor_keys (rg ∷ names) d = carried_keys (values (urls_of rg d)) ++ survivor_keys names d

pub is_rescuable : SeadexDict → Ref → Bool
is_rescuable d (rg, url) = elim (url_at rg url d) [
  | none ↦ false
  | some u ↦ u.is_public && not (is_empty u.episodes)
]

pub episodes_at : SeadexDict → Ref → List ParsedKey
episodes_at d (rg, url) = elim (url_at rg url d) [
  | none ↦ []
  | some u ↦ get_episode_keys u.episodes
]

pub rescue_step : List ParsedKey × SeadexDict → Ref → List ParsedKey × SeadexDict
rescue_step (survivors, d) ref =
    let url_keys = episodes_at d ref in
    if subset url_keys survivors
    then (survivors, d)
    else (survivors ++ url_keys, modify_url ref.0 ref.1 (flag false) d)

pub rescue_dropped_coverage : List Text → List Ref → SeadexDict → SeadexDict
rescue_dropped_coverage names dropped d =
    (fold rescue_step (survivor_keys names d, d) (select (is_rescuable d) dropped)).1

-- The last loop: of the flagged urls of one group with the same sizes the first is kept.
pub dedupe_urls : List (List ℕ) → Urls → Urls
dedupe_urls seen [] = []
dedupe_urls seen ((url, u) ∷ urls) =
    let skips = not u.download || is_empty u.size in
    let identity = sorted u.size in
    let again = contains identity seen in
    (url, if skips then u else if again then unflag u else u)
    ∷ dedupe_urls (if skips || again then seen else identity ∷ seen) urls

pub dedupe : SeadexDict → SeadexDict
dedupe d =
    map_values {V = ReleaseGroup} {W = ReleaseGroup}
      (λ g. record g { urls = dedupe_urls [] g.urls }) d

-- one round of the loop over the same-files sets
pub reduce_step : SeadexDict × PrivateOnlySkips → List Text → SeadexDict × PrivateOnlySkips
reduce_step (d, skips) names =
    let flagged = select (λ rg. is_flagged (urls_of rg d)) names in
    let r =
      reduce_same_files_set names flagged (record { dict = d; skips = skips; dropped = [] }) in
    if is_empty flagged
    then (d, skips)
    else (rescue_dropped_coverage names r.dropped r.dict, r.skips)

unfoldable pub reduce_overlapping_downloads : Bool → SeadexDict → SeadexDict × PrivateOnlySkips
reduce_overlapping_downloads interactive d =
    let (reduced, skips) = fold reduce_step (d, no_skips) (get_same_files_groups d) in
    if interactive then (d, no_skips) else (dedupe reduced, skips)

-- What a run of the reduction computes with.
unfoldable pub reduce_program : Unit {0}
unfolding flagged_keys unflag_group unflag_all drop_losers add_notice promotion_notice promotable
    flag_public choose_promoted promote_public_alternative stand_in hold_set soft_skip settle
    reduce_private reduce_mixed reduce_by_public reduce_same_files_set carried_keys survivor_keys
    is_rescuable episodes_at rescue_step rescue_dropped_coverage dedupe_urls dedupe reduce_step
    reduce_overlapping_downloads get_same_files_groups
reduce_program = tt
