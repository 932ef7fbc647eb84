-- ===== src/Planner/Reduce/Lossless.antt =====
-- One round of the reduction: `_reduce_same_files_set`, then `_rescue_dropped_coverage`.
use pearlarr.Base.{
  Bool, true, false, ◌≡◌, refl, ap, sym, ◌∙◌, ◌⊎◌, inl, inr, some, List, [], ◌∷◌, Memᴰ, arith,
  contains, Option-cases, if_ind, some_inj, nat_eq, list_eq, option_eq, pair_eq, select, mem-select,
  mem-select_of_mem, is_empty, mem-is_empty, any-mem, mem-values,
}
use pearlarr.Text.{Text}
use pearlarr.Releases.{UrlItem, SeadexDict, EpisodeRecord, unflag, urls_of, url_at}
use pearlarr.Planner.Types.{PrivateOnlySkips}
use pearlarr.Planner.Coverage.{ParsedKey, get_episode_keys}
use pearlarr.Planner.Reduce.{
  Ref, Reduction, is_flagged, survivor_keys, is_rescuable, episodes_at, rescue_dropped_coverage,
  reduce_step,
}
use pearlarr.Planner.Reduce.Refines.{HasUrlKeys, ItemRefines, Refines-forward}
use pearlarr.Planner.Reduce.Safety.{HasUrlKeys-Refines, start-Keeps, reduce_same_files_set-Keeps}
use pearlarr.Planner.Reduce.Accounts.{start-Accounts, reduce_same_files_set-Accounts}
use pearlarr.Planner.Reduce.Survivors.{Carries, survivor_keys-intro}
use pearlarr.Planner.Reduce.Rescue.{InSet, rescue_loop}

-- What a url covers does not change with its flags.
listed-ItemRefines :
    {u v : UrlItem} (key : ParsedKey)
    → ItemRefines u v
    → Carries u key
    → (v.is_public ≡ true) × (contains key (get_episode_keys v.episodes) ≡ true)
unfolding unflag
listed-ItemRefines key i c = (
  ap (λ (x : UrlItem). x.is_public) i.same ∙ c.is_public,
  ap (λ (x : UrlItem). contains key (get_episode_keys x.episodes)) i.same ∙ c.listed,
)

is_rescuable-InSet :
    (names : List Text) (d : SeadexDict) (ref : Ref)
    → Memᴰ ref.0 names
    → is_rescuable d ref ≡ true
    → InSet names d ref
unfolding is_rescuable
is_rescuable-InSet names d (rg, url) m h = elim (Option-cases (url_at rg url d)) [
  | inl e ↦ absurd (cc (h, e))
  | inr (u, e) ↦ record { named = m; item = u; found = e; is_public = ground (arith, h, e) }
]

filled :
    (eps : List EpisodeRecord) (key : ParsedKey)
    → contains key (get_episode_keys eps) ≡ true
    → is_empty eps ≡ false
unfolding get_episode_keys
filled [] key h = absurd (cc)
filled (ep ∷ eps) key h = refl

rescue-lossless :
    (names : List Text) (dropped : List Ref) (d : SeadexDict) (rg url : Text) {v : UrlItem}
    (key : ParsedKey)
    → HasUrlKeys d
    → ((ref : Ref) → Memᴰ ref dropped → Memᴰ ref.0 names)
    → Memᴰ rg names
    → url_at rg url d ≡ some v
    → v.is_public ≡ true
    → contains key (get_episode_keys v.episodes) ≡ true
    → (v.download ≡ true) ⊎ Memᴰ (rg, url) dropped
    → contains key (survivor_keys names (rescue_dropped_coverage names dropped d)) ≡ true
unfolding rescue_dropped_coverage is_rescuable episodes_at
rescue-lossless names dropped d rg url {v} key keyed sub m e public listed where_ =
    rescue_loop names (select (is_rescuable d) dropped) (survivor_keys names d, d) key
      (λ ref n.
        let (n', t) = mem-select (is_rescuable d) dropped n in
        is_rescuable-InSet names d ref (sub ref n') t)
      (record { keyed = keyed; carried = λ k h. h })
      (elim where_ [
        | inl down ↦ inl (
            survivor_keys-intro d key names rg url m e
              (record { download = down; is_public = public; listed = listed }))
        | inr n ↦ inr (
          (rg, url),
          mem-select_of_mem (is_rescuable d) dropped n
              (ground (arith, e, public, filled v.episodes key listed)),
          ground (arith, e, listed),
        )
      ])

-- A round of the reduction loses no episode: whatever a flagged public url of the set covers, some
-- flagged public url of the set covers after it.
pub reduce_step-lossless :
    (d : SeadexDict) (skips : PrivateOnlySkips) (names : List Text) (rg url : Text) (u : UrlItem)
    (key : ParsedKey)
    → HasUrlKeys d
    → Memᴰ rg names
    → url_at rg url d ≡ some u
    → Carries u key
    → contains key (survivor_keys names (reduce_step (d, skips) names).0) ≡ true
unfolding reduce_step
reduce_step-lossless d skips names rg url u key h m e c =
    let test : Text → Bool = λ g. is_flagged (urls_of g d) in
    let flagged = select test names in
    let mf : Memᴰ rg flagged =
      mem-select_of_mem test names m
        (any-mem (λ (x : UrlItem). x.download) _ (mem-values url (urls_of rg d) e) c.download) in
    let start : Reduction = record { dict = d; skips = skips; dropped = [] } in
    let k = reduce_same_files_set-Keeps d h names flagged start (start-Keeps d h skips) in
    let a = reduce_same_files_set-Accounts d flagged names start (start-Accounts d flagged skips) in
    let (v, ev, i) = Refines-forward k.refines rg url e in
    let (public, listed) = listed-ItemRefines key i c in
    if_ind (λ (st : SeadexDict × PrivateOnlySkips). contains key (survivor_keys names st.0) ≡ true)
      (is_empty flagged) (λ t. absurd (cc (t, mem-is_empty flagged mf)))
      (λ _.
        rescue-lossless names _ _ rg url key (HasUrlKeys-Refines k.refines h)
          (λ ref n. (mem-select test names (a.of_flagged ref n)).0) m ev public listed
          (elim (a.kept rg url u e c.download) [
            | inl (w, ew, t) ↦ inl (ap (λ (x : UrlItem). x.download) (some_inj (sym ev ∙ ew)) ∙ t)
            | inr n ↦ inr n
          ]))
