-- ===== src/Imports/Paths.antt =====
-- `translate_download_path`: a download client's path in Sonarr's view of the file system.
use pearlarr.Base.{
  ℕ, zero, suc, Bool, true, false, not, ◌&&◌, ◌||◌, Option, none, some, List, [], ◌∷◌, ◌++◌, ◌==◌,
  ltb, if◌then◌else◌, is_empty, length, nat_eq, list_eq, map, fold, select,
}
use pearlarr.Text.{Text, casefold, strip_right}
use pearlarr.Probe.Queue.{folded}
use pearlarr.Probe.Commands.{fold_path_separators}
use pearlarr.Imports.Names.{is_slash}

pub record RemotePathMapping : Type 0 where
  pub host : Option Text
  pub remote_path : Option Text
  pub local_path : Option Text

-- `path.split("/")`, the segment that is being read first
split_from : Text → Text → List Text
split_from segment [] = segment ∷ []
split_from segment (c ∷ s) =
    let rest = split_from (if is_slash c then [] else segment ++ c ∷ []) s in
    if is_slash c then segment ∷ rest else rest

-- `_path_segments`
unfoldable pub path_segments : Text → List Text
unfolding split_from
path_segments path =
    select (λ segment. not (is_empty segment)) (split_from [] (fold_path_separators path))

-- `folded[: len(remote)] == remote`
abbrev pub segments_start : List Text → List Text → Bool
segments_start [] path = true
segments_start (s ∷ remote) [] = false
segments_start (s ∷ remote) (t ∷ path) = (s == t) && segments_start remote path

-- the best mapping so far: its rank and its local path
pub record Best : Type 0 where
  pub prefix_length : ℕ
  pub host_matches : Bool
  pub local_path : Text

-- `rank > best_rank`, on tuples
abbrev pub outranks : ℕ → Bool → Option Best → Bool
outranks n h none = true
outranks n h (some b) = ltb b.prefix_length n || ((n == b.prefix_length) && h && not b.host_matches)

abbrev pub text_of : Option Text → Text
text_of none = []
text_of (some s) = s

-- one mapping of the loop
unfoldable pub best_step : List Text → Option Text → Option Best → RemotePathMapping → Option Best
best_step content target_host best m =
    let remote = map casefold (path_segments (text_of m.remote_path)) in
    let host_matches = elim target_host as (λ _. Bool) [
      | none ↦ false
      | some host ↦ folded m.host == host
    ] in
    if is_empty (text_of m.remote_path) || is_empty (text_of m.local_path)
    then best
    else if is_empty remote || not (segments_start remote content)
    then best
    else if outranks (length remote) host_matches best
    then some (record {
      prefix_length = length remote;
      host_matches = host_matches;
      local_path = text_of m.local_path;
    })
    else best

-- `"/".join(segments)`
abbrev pub join_slash : List Text → Text
join_slash [] = []
join_slash (s ∷ []) = s
join_slash (s ∷ t ∷ ss) = s ++ 47 ∷ join_slash (t ∷ ss)

-- `path[n:]` of the segments
abbrev pub drop {ℓ} : {A : Type ℓ} → ℕ → List A → List A
drop zero xs = xs
drop (suc n) [] = []
drop (suc n) (x ∷ xs) = drop n xs

abbrev pub is_separator : ℕ → Bool
is_separator c = (c == 47) || (c == 92)

-- the local path with the rest of the content path behind it
unfoldable pub place_under : List Text → Best → Text
place_under content best =
    let stripped = strip_right is_separator best.local_path in
    let base = if is_empty stripped then 47 ∷ [] else stripped in
    let suffix = drop best.prefix_length content in
    if is_empty suffix
    then base
    else if base == 47 ∷ []
    then 47 ∷ join_slash suffix
    else base ++ 47 ∷ join_slash suffix

-- `qbit_host.casefold() if qbit_host else None`
abbrev pub target_host_of : Option Text → Option Text
target_host_of none = none
target_host_of (some host) = if is_empty host then none else some (casefold host)

unfoldable pub translate_download_path : Text → List RemotePathMapping → Option Text → Text
translate_download_path content_path mappings qbit_host =
    let content = path_segments content_path in
    elim (fold (best_step (map casefold content) (target_host_of qbit_host)) none mappings) [
      | none ↦ content_path
      | some best ↦ place_under content best
    ]
