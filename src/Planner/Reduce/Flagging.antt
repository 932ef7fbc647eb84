-- ===== src/Planner/Reduce/Flagging.antt =====
-- `reduce_overlapping_downloads` over the whole dictionary: what it may change.
use pearlarr.Base.{
  Bool, false, not, ◌&&◌, ◌||◌, ◌≡◌, ◌∙◌, ap, inl, inr, Option, none, some, arith, Bool-cases,
  Option-cases, nat_eq, list_eq,
}
use pearlarr.Text.{Text}
use pearlarr.Releases.{UrlItem, SeadexDict, url_at}
use pearlarr.Planner.Reduce.{reduce_overlapping_downloads}
use pearlarr.Planner.Reduce.Refines.{HasUrlKeys, ItemRefines}
use pearlarr.Planner.Reduce.Safety.{reduce_overlapping_downloads-Refines}
use pearlarr.Planner.Reduce.Shape.{without_flags, without_flags-reduce_overlapping_downloads}

-- A url that is flagged after, was not before, and is private or a fallback.
abbrev pub wrongly_flagged : Option UrlItem → Option UrlItem → Bool
wrongly_flagged before none = false
wrongly_flagged none (some v) = v.download
wrongly_flagged (some u) (some v) =
    v.download && not u.download && (not u.is_public || u.is_fallback)

not_wrongly : {u v : UrlItem} → ItemRefines u v → wrongly_flagged (some u) (some v) ≡ false
not_wrongly {u} {v} r = elim (Bool-cases v.download) [
  | inl h ↦ elim (r.newly h) [ inl old ↦ ground (arith, old) | inr (p, f) ↦ ground (arith, p, f) ]
  | inr h ↦ ground (arith, h)
]

-- With every flag taken back, the reduced dictionary is the given one: the same groups with their tags and episodes,
-- and the same urls with all that they list, in the same order. And where no group of the given one has a url twice,
-- a url that the reduction newly flags is public and no fallback.
pub reduce_overlapping_downloads-flags :
    (interactive : Bool) (d : SeadexDict) (rg url : Text)
    → HasUrlKeys d
    → (without_flags (reduce_overlapping_downloads interactive d).0 ≡ without_flags d)
      × (wrongly_flagged
            (url_at rg url d)
            (url_at rg url (reduce_overlapping_downloads interactive d).0)
          ≡ false)
reduce_overlapping_downloads-flags interactive d rg url h =
    let after = (reduce_overlapping_downloads interactive d).0 in
    (
      without_flags-reduce_overlapping_downloads interactive d,
      elim (Option-cases (url_at rg url after)) [
        | inl n ↦ ap (wrongly_flagged (url_at rg url d)) n
        | inr (v, e) ↦
            let (u, found, r) =
              (reduce_overlapping_downloads-Refines interactive d h).items rg url v e in
            ap (wrongly_flagged (url_at rg url d)) e
            ∙ ap (λ o. wrongly_flagged o (some v)) found
            ∙ not_wrongly r
      ],
    )
