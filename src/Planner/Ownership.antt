-- ===== src/Planner/Ownership.antt =====
-- `_untagged_counter`, `_owns_untagged_copy`, `_doubled_sizes`, `episode_coverage` and
-- `_episode_identities`: whose copies the files on disk are, and which picks cover an episode.
pub mod Copies
use pearlarr.Base.{
  ℕ, Bool, true, false, not, ◌&&◌, ◌||◌, Option, none, some, List, [], ◌∷◌, ◌==◌, ltb, leb,
  if◌then◌else◌, Dict, get, put, set_default, modify, keys, values, contains, any, select, is_empty,
  sorted, Counter, counter, count, counter_le, nat_eq, option_eq, list_eq, fold,
}
use pearlarr.Text.{Text, normalize_rg}
use pearlarr.Releases.{
  EpisodeRecord, EpisodeKey, key_eq, season_episode_key, UrlItem, ReleaseGroup, SeadexDict,
  SonarrEpisode, hand_import, size_or_zero,
}

unfoldable pub untagged_counter : List ℕ → Option (Counter ℕ)
untagged_counter untagged_sizes =
    let c = counter untagged_sizes in
    if is_empty c || any (λ size. size == 0) (keys c) then none else some c

unfoldable pub owns_untagged_copy : Option (Counter ℕ) → List ℕ → Bool
owns_untagged_copy none listed_sizes = false
owns_untagged_copy (some c) listed_sizes = counter_le c (counter listed_sizes)

unfoldable pub doubled_sizes : Dict EpisodeKey ℕ → Dict EpisodeKey ℕ → List ℕ → List ℕ
doubled_sizes listed held sizes =
    let placed = counter (values listed) in
    let held_counts = counter (values (select (λ p. contains p.0 (keys listed)) held)) in
    sorted (keys (select (λ p. contains p.0 sizes && ltb (count p.0 placed) p.1) held_counts))

pub record EpisodeCoverage : Type 0 where
  pub blanket : List Text
  pub by_key : Dict EpisodeKey (List Text)

abbrev pub Index : Type 0
Index = Dict EpisodeKey SonarrEpisode

-- one placed episode of a url of the group `norm`
cover_episode : Index → Text → EpisodeCoverage → EpisodeRecord → EpisodeCoverage
cover_episode index norm cov ep = elim ep.season [
  | none ↦ cov
  | some season ↦ elim ep.episode [
    | none ↦ cov
    | some episode ↦
        let key : EpisodeKey = record { season = season; episode = episode } in
        if contains key (keys index)
        then record cov { by_key = modify key (λ s. norm ∷ s) (set_default key [] cov.by_key) }
        else cov
  ]
]

cover_url : Index → Text → EpisodeCoverage → UrlItem → EpisodeCoverage
cover_url index norm cov u =
    let cov' = if is_empty u.episodes then record cov { blanket = norm ∷ cov.blanket } else cov in
    fold (cover_episode index norm) cov' u.episodes

cover_group : Index → EpisodeCoverage → Text × ReleaseGroup → EpisodeCoverage
cover_group index cov (rg, g) = elim (normalize_rg (some rg)) [
  | none ↦ cov
  | some norm ↦ fold (cover_url index norm) cov (values g.urls)
]

unfoldable pub episode_coverage : SeadexDict → Index → EpisodeCoverage
unfolding cover_group cover_url cover_episode
episode_coverage d index = fold (cover_group index) (record { blanket = []; by_key = [] }) d

pub record EpisodeIdentity : Type 0 where
  pub group : Option Text
  pub by_size : Bool
  pub size : Option ℕ

pub record EntryIdentities : Type 0 where
  pub identities : Dict EpisodeKey EpisodeIdentity
  pub untagged_by_key : Dict EpisodeKey ℕ

-- the first pass: one episode of the index
read_file : EntryIdentities → EpisodeKey × SonarrEpisode → EntryIdentities
read_file e (key, ep) = elim ep.episode_file [
  | none ↦ e
  | some file ↦ elim (normalize_rg file.release_group) [
    | some group ↦ record e {
      identities =
          put key (record { group = some group; by_size = false; size = file.size }) e.identities;
    }
    | none ↦ record e { untagged_by_key = put key (size_or_zero file.size) e.untagged_by_key }
  ]
]

sized : Text → ℕ → EpisodeIdentity
sized norm size = record { group = some norm; by_size = true; size = some size }

-- an untagged file at a listed size of a refused pack, wherever it sits
claim_refused :
    Text
    → UrlItem
    → Dict EpisodeKey EpisodeIdentity
    → EpisodeKey × ℕ
    → Dict EpisodeKey EpisodeIdentity
claim_refused norm u ids (key, size) =
    if not (contains key (keys ids)) && ltb 0 size && contains size u.size
    then put key (sized norm size) ids
    else ids

-- an untagged file at the size that a pick lists for its episode
claim_episode :
    Text
    → Dict EpisodeKey ℕ
    → Dict EpisodeKey EpisodeIdentity
    → EpisodeRecord
    → Dict EpisodeKey EpisodeIdentity
claim_episode norm untagged ids ep = elim ep.season [
  | none ↦ ids
  | some season ↦ elim ep.episode [
    | none ↦ ids
    | some episode ↦
        let key = season_episode_key (some season) (some episode) in
        if contains key (keys ids) || leb ep.size 0 || not (get key untagged == some ep.size)
        then ids
        else put key (sized norm ep.size) ids
  ]
]

claim_url :
    Text
    → Dict EpisodeKey ℕ
    → Dict EpisodeKey EpisodeIdentity
    → UrlItem
    → Dict EpisodeKey EpisodeIdentity
claim_url norm untagged ids u =
    if hand_import u
    then fold (claim_refused norm u) ids untagged
    else fold (claim_episode norm untagged) ids u.episodes

claim_group :
    Dict EpisodeKey ℕ
    → Dict EpisodeKey EpisodeIdentity
    → Text × ReleaseGroup
    → Dict EpisodeKey EpisodeIdentity
claim_group untagged ids (rg, g) = elim (normalize_rg (some rg)) [
  | none ↦ ids
  | some norm ↦ fold (claim_url norm untagged) ids (values g.urls)
]

unfoldable pub episode_identities : SeadexDict → Index → EntryIdentities
unfolding read_file claim_group claim_url claim_episode claim_refused sized
episode_identities d index =
    let e = fold read_file (record { identities = []; untagged_by_key = [] }) index in
    if is_empty e.untagged_by_key
    then e
    else record e { identities = fold (claim_group e.untagged_by_key) e.identities d }
