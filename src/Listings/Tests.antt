-- ===== src/Listings/Tests.antt =====
-- The ranges of a season with a gap.
use pearlarr.Base.{false, ◌≡◌, refl, ◌∷◌, [], any, sorted, distinct, nat_eq}
use pearlarr.Text.{text}
use pearlarr.Listings.Coverage.{
  runs_of, run_step, all_runs, format_episode_ranges, range_text, two_digits, join_comma,
}
use pearlarr.Listings.Ranges.{in_run, runs_of-roundtrip}

sample_ranges : format_episode_ranges (3 ∷ 1 ∷ 2 ∷ 2 ∷ 10 ∷ []) ≡ text "E01-E03, E10"
unfolding format_episode_ranges range_text two_digits join_comma runs_of run_step all_runs
sample_ranges = refl

runs_of-roundtrip_example :
    any (in_run 4) (runs_of (sorted (distinct (3 ∷ 1 ∷ 2 ∷ 10 ∷ [])))) ≡ false
runs_of-roundtrip_example = runs_of-roundtrip 4 (3 ∷ 1 ∷ 2 ∷ 10 ∷ [])
