-- ===== src/Episodes/Snapshot.antt =====
-- `EpisodeSnapshot` and `trusted_groups`: the judgment of one episode's file.
use pearlarr.Base.{
  ℕ, Bool, true, false, not, ◌&&◌, ◌||◌, Option, none, some, List, [], ◌∷◌, ◌++◌, ◌==◌,
  if◌then◌else◌, Dict, get, put, set_default, contains, is_empty, is_some, nat_eq, option_eq,
  list_eq, fold,
}
use pearlarr.Text.{Text, normalize_group, normalize_rg}
use pearlarr.Releases.{EpisodeFile, SonarrEpisode}
use pearlarr.Planner.Types.{OwnedEpisode, GuardFacts}
use pearlarr.Planner.Match.{some_in}
use pearlarr.Imports.Record.{OwnGroup}
use pearlarr.Episodes.Statuses.{
  FileStatus, recommended, other_group, unknown_group, misplaced, TargetJudgment, no_file,
  TargetStatuses, judged,
}

-- a group's sizes that verify its files, or none to trust it by name
abbrev pub TrustPolicy : Type 0
TrustPolicy = Dict Text (Option (List ℕ))

pub record GroupVotes : Type 0 where
  pub own : OwnGroup
  pub siblings : List OwnGroup

pub record EpisodeSnapshot : Type 0 where
  pub episodes : Dict ℕ SonarrEpisode
  pub trusted : TrustPolicy
  pub own : OwnGroup
  pub owned_episode_sizes : Dict ℕ ℕ

-- the groups of the picks, trusted by name
unfoldable pub trust_entry : TrustPolicy → Text → TrustPolicy
trust_entry trusted g =
    if is_empty (normalize_group g) || is_empty g
    then trusted
    else put (normalize_group g) none trusted

-- the stale groups by their normal names
unfoldable pub stale_names : List Text → List Text
stale_names [] = []
stale_names (g ∷ gs) =
    let rest = stale_names gs in
    if is_empty (normalize_group g) || is_empty g then rest else normalize_group g ∷ rest

-- the vote of a sibling by its normal name: the policy and the own sizes
unfoldable pub vote :
    List Text → Option Text → TrustPolicy × List ℕ → List ℕ → Option Text → TrustPolicy × List ℕ
vote stale own_norm (trusted, own_sizes) sizes none = (trusted, own_sizes)
vote stale own_norm (trusted, own_sizes) sizes (some norm) = (
  if contains norm stale then trusted else set_default norm none trusted,
  if some norm == own_norm then own_sizes ++ sizes else own_sizes,
)

-- the loop over the siblings
unfoldable pub sibling_step :
    List Text → Option Text → TrustPolicy × List ℕ → OwnGroup → TrustPolicy × List ℕ
sibling_step stale own_norm state sibling =
    vote stale own_norm state sibling.sizes (normalize_rg (some sibling.release_group))

-- `frozenset(own_sizes) or None`
abbrev pub size_gate : List ℕ → Option (List ℕ)
size_gate [] = none
size_gate (s ∷ sizes) = some (s ∷ sizes)

-- the vote of the torrent's own group, the last
unfoldable pub own_vote : Option Text → TrustPolicy × List ℕ → TrustPolicy
own_vote none (trusted, own_sizes) = trusted
own_vote (some norm) (trusted, own_sizes) =
    if is_empty norm then trusted else put norm (size_gate own_sizes) trusted

unfoldable pub trusted_groups : GuardFacts → GroupVotes → TrustPolicy
trusted_groups guards votes =
    let own_norm = normalize_rg (some votes.own.release_group) in
    own_vote own_norm (
      fold (sibling_step (stale_names guards.stale_groups) own_norm)
        (fold trust_entry [] guards.entry_groups, votes.own.sizes) votes.siblings)

-- `dict(owned_episodes)`: the last pair of an id wins
unfoldable pub owned_sizes : Dict ℕ ℕ → List OwnedEpisode → Dict ℕ ℕ
owned_sizes sizes [] = sizes
owned_sizes sizes (o ∷ os) = owned_sizes (put o.ep_id o.size sizes) os

unfoldable pub guarded : Dict ℕ SonarrEpisode → GuardFacts → GroupVotes → EpisodeSnapshot
guarded episodes guards votes = record {
  episodes = episodes;
  trusted = trusted_groups guards votes;
  own = votes.own;
  owned_episode_sizes = owned_sizes [] guards.owned_episodes;
}

module _ (snapshot : EpisodeSnapshot) where
  -- `_own_size`
  abbrev pub is_own_size : Option ℕ → Bool
  is_own_size size = some_in size snapshot.own.sizes

  -- `_misplaced`
  unfoldable pub is_misplaced : Option ℕ → Option ℕ → Bool
  is_misplaced size intended_size =
      is_own_size size && is_some intended_size && not (size == intended_size)

  -- `not group`
  abbrev pub no_group : Option Text → Bool
  no_group none = true
  no_group (some g) = is_empty g

  abbrev pub group_of : Option EpisodeFile → Option Text
  group_of none = none
  group_of (some f) = f.release_group

  abbrev pub size_of : Option EpisodeFile → Option ℕ
  size_of none = none
  size_of (some f) = f.size

  -- the tail of `_status`, of a file with a trusted or untrusted group
  unfoldable pub grouped_status : Text → Option ℕ → Option ℕ → FileStatus
  grouped_status norm size intended_size = elim (get norm snapshot.trusted) [
    | none ↦ other_group
    | some verify_sizes ↦
        let unverified = elim verify_sizes as (λ _. Bool) [
          | none ↦ false
          | some sizes ↦ not (some_in size sizes)
        ] in
        if unverified
        then other_group
        else if is_misplaced size intended_size
        then misplaced
        else recommended
  ]

  -- `_status`
  unfoldable pub status_of : ℕ → Option EpisodeFile → Option ℕ → FileStatus
  status_of ep_id file intended_size =
      let size = size_of file in
      if no_group (group_of file)
      then (if is_some size && (size == get ep_id snapshot.owned_episode_sizes)
          then (if is_misplaced size intended_size then misplaced else recommended)
          else unknown_group)
      else grouped_status
          (normalize_group (elim (group_of file) as (λ _. Text) [ none ↦ [] | some g ↦ g ])) size
          intended_size

  -- the judgment of an episode that has a file
  unfoldable pub judge_file : ℕ → Option EpisodeFile → Option ℕ → TargetJudgment
  judge_file ep_id file intended_size =
      let own_copy = is_own_size (size_of file) in
      record {
        status = status_of ep_id file intended_size;
        own_copy = is_some file && own_copy;
        untagged_copy =
            is_some file
            && own_copy
            && no_group (group_of file)
            && not (is_misplaced (size_of file) intended_size);
      }

  -- `EpisodeSnapshot.judge`
  unfoldable pub judge_episode : ℕ → Option ℕ → TargetJudgment
  judge_episode ep_id intended_size = elim (get ep_id snapshot.episodes) [
    | none ↦ no_file
    | some ep ↦
        if ep.episode_file_id == 0 then no_file else judge_file ep_id ep.episode_file intended_size
  ]

  unfoldable pub statuses : List ℕ → Dict ℕ ℕ → TargetStatuses
  statuses target_ep_ids intended_sizes = judged target_ep_ids intended_sizes judge_episode
