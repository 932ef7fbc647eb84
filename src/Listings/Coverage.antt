-- ===== src/Listings/Coverage.antt =====
-- pearlarr/coverage.py: episode numbers as ranges and seasons.
use pearlarr.Base.{
  ℕ, zero, suc, ◌+◌, Bool, not, ◌&&◌, Option, none, some, List, [], ◌∷◌, ◌++◌, ◌==◌, if◌then◌else◌,
  Dict, get_else, keys, modify, set_default, distinct, sorted, is_empty, fold, map, nat_eq,
}
use mathlib.Core.List.{reverse}
use pearlarr.Text.{Text, text}
use pearlarr.Releases.{EpisodeRecord, SonarrEpisode}

-- the decimal digits of the next number, the last digit first
abbrev pub next_digits : List ℕ → List ℕ
next_digits [] = 1 ∷ []
next_digits (d ∷ ds) = let carried = next_digits ds in if d == 9 then 0 ∷ carried else (d + 1) ∷ ds

abbrev pub digits_of : ℕ → List ℕ
digits_of zero = 0 ∷ []
digits_of (suc n) = next_digits (digits_of n)

abbrev pub pad_two : List ℕ → List ℕ
pad_two [] = 0 ∷ 0 ∷ []
pad_two (d ∷ []) = d ∷ 0 ∷ []
pad_two (d ∷ e ∷ ds) = d ∷ e ∷ ds

-- `f"{n:02d}"`
unfoldable pub two_digits : ℕ → Text
two_digits n = map {A = ℕ} {B = ℕ} (λ d. d + 48) (reverse (pad_two (digits_of n)))

-- the state of the walk: the closed runs, and the open one
pub record Runs : Type 0 where
  pub closed : List (ℕ × ℕ)
  pub run_start : ℕ
  pub run_end : ℕ

unfoldable pub run_step : Runs → ℕ → Runs
run_step r episode = if episode == r.run_end + 1 then record r { run_end = episode } else record {
  closed = r.closed ++ (r.run_start, r.run_end) ∷ [];
  run_start = episode;
  run_end = episode;
}

unfoldable pub all_runs : Runs → List (ℕ × ℕ)
all_runs r = r.closed ++ (r.run_start, r.run_end) ∷ []

-- the runs of the sorted episodes
unfoldable pub runs_of : List ℕ → List (ℕ × ℕ)
runs_of [] = []
runs_of (episode ∷ episodes) =
    all_runs
      (fold run_step (record { closed = []; run_start = episode; run_end = episode }) episodes)

unfoldable pub range_text : ℕ × ℕ → Text
range_text (start, end) =
    if start == end
    then text "E" ++ two_digits start
    else text "E" ++ (two_digits start ++ (text "-E" ++ two_digits end))

-- `", ".join(parts)`
unfoldable pub join_comma : List Text → Text
join_comma [] = []
join_comma (t ∷ []) = t
join_comma (t ∷ u ∷ ts) = t ++ (text ", " ++ join_comma (u ∷ ts))

unfoldable pub format_episode_ranges : List ℕ → Text
format_episode_ranges numbers = join_comma (map range_text (runs_of (sorted (distinct numbers))))

-- a record's season and episode, when it has both
unfoldable pub add_episode : Dict ℕ (List ℕ) → Option ℕ → Option ℕ → Dict ℕ (List ℕ)
add_episode by_season none episode = by_season
add_episode by_season (some season) none = by_season
add_episode by_season (some season) (some episode) =
    modify season (λ episodes. episode ∷ episodes) (set_default season [] by_season)

unfoldable pub episodes_by_season : List EpisodeRecord → Dict ℕ (List ℕ)
episodes_by_season episodes =
    fold (λ by_season (ep : EpisodeRecord). add_episode by_season ep.season ep.episode) [] episodes

unfoldable pub format_episode_coverage : List EpisodeRecord → Option (List (Text × Text))
format_episode_coverage episodes =
    let by_season = episodes_by_season episodes in
    if is_empty episodes
    then none
    else if is_empty by_season
    then none
    else some (
        map
          (λ season.
            (text "S" ++ two_digits season, format_episode_ranges (get_else season [] by_season)))
          (sorted (keys by_season)))

-- `not coverage`, which an empty list is too
abbrev pub coverage_text : Option (List (Text × Text)) → Text
coverage_text none = []
coverage_text (some coverage) =
    join_comma (map {A = Text × Text} {B = Text} (λ p. p.0 ++ (text " " ++ p.1)) coverage)

unfoldable pub coverage_string : List EpisodeRecord → Text
coverage_string episodes = coverage_text (format_episode_coverage episodes)

unfoldable pub episodes_from_ep_list : List SonarrEpisode → Bool → List EpisodeRecord
episodes_from_ep_list [] missing_only = []
episodes_from_ep_list (ep ∷ eps) missing_only =
    let rest = episodes_from_ep_list eps missing_only in
    if missing_only && not (ep.episode_file_id == 0)
    then rest
    else record { season = ep.season_number; episode = ep.episode_number; size = 0 } ∷ rest
