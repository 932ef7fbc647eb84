-- ===== src/Planner/Reduce/Dedupe.antt =====
-- The last loop of `reduce_overlapping_downloads`, over the urls of one group.
use pearlarr.Base.{ℕ, not, ◌||◌, List, [], ◌∷◌, if◌then◌else◌, is_empty, sorted, nat_eq, list_eq}
use pearlarr.Planner.Reduce.{Urls}

-- The sorted sizes of each flagged url that lists sizes, in order.
unfoldable pub identities : Urls → List (List ℕ)
identities [] = []
identities ((url, u) ∷ urls) =
    let rest = identities urls in
    if not u.download || is_empty u.size then rest else sorted u.size ∷ rest
