-- ===== src/Planner/Reduce/Frame.antt =====
-- What a round of the reduction does to the groups outside its set.

use pearlarr.Base.{
  Bool, false, not, ◌≡◌, refl, ap, ◌∙◌, inl, inr, List, [], ◌∷◌, Memᴰ, ◌==◌, Bool-cases, if_ind,
  map_values, modify, contains, contains_of_mem, nat_eq, list_eq, option_eq, pair_eq, eq_of_==,
  fold_inv, select, mem-select, is_empty,
}
use pearlarr.Text.{Text}
use pearlarr.Releases.{SeadexDict, flag, unflag, urls_of, modify_urls, modify_url}
use pearlarr.Releases.Flags.{urls_of-modify_urls}
use pearlarr.Planner.Types.{PrivateOnlySkips}
use pearlarr.Planner.Coverage.{ParsedKey}
use pearlarr.Planner.Reduce.{
  Urls, Ref, Reduction, unflag_group, unflag_all, drop_losers, flag_public, reduce_same_files_set,
  is_flagged, is_rescuable, survivor_keys, rescue_step, rescue_dropped_coverage, reduce_step,
}
use pearlarr.Planner.Reduce.Outcomes.{reduce_same_files_set_cases}
use pearlarr.Planner.Reduce.Safety.{promoted_lem}
use pearlarr.Planner.Reduce.Accounts.{start-Accounts, reduce_same_files_set-Accounts}

module _ (names : List Text) (rg : Text) (out : contains rg names ≡ false) (d₀ : SeadexDict) where
  abbrev Frame : SeadexDict → Type 0
  Frame d = urls_of rg d ≡ urls_of rg d₀

  modify-Frame :
      (g : Text) (f : Urls → Urls) (d : SeadexDict)
      → f [] ≡ []
      → Memᴰ g names
      → Frame d
      → Frame (modify_urls g f d)
  modify-Frame g f d e m h = elim (Bool-cases (g == rg)) [
    | inl t ↦
        absurd (cc (ap (λ x. contains x names) (eq_of_== g rg t), contains_of_mem names m, out))
    | inr t ↦ urls_of-modify_urls g f rg d e ∙ rw t h
  ]

  unflag_group-Frame :
      (r : Reduction) (g : Text) → Memᴰ g names → Frame r.dict → Frame (unflag_group r g).dict
  unfolding unflag_group
  unflag_group-Frame r g m h = modify-Frame g (map_values unflag) r.dict refl m h

  reduce_same_files_set-Frame :
      (flagged : List Text) (r : Reduction)
      → ((g : Text) → Memᴰ g flagged → Memᴰ g names)
      → Frame r.dict
      → Frame (reduce_same_files_set names flagged r).dict
  unfolding unflag_all drop_losers
  reduce_same_files_set-Frame flagged r sub h =
      reduce_same_files_set_cases (λ q. Frame q.dict) names flagged r
        (λ s.
          fold_inv (λ (q : Reduction). Frame q.dict) unflag_group flagged
            (λ q g m. unflag_group-Frame q g (sub g m)) _ h)
        (λ s g d e.
          let (m, _, changed) = promoted_lem names r.dict e in
          fold_inv (λ (q : Reduction). Frame q.dict) unflag_group flagged
            (λ q i n. unflag_group-Frame q i (sub i n)) _
            (ap (urls_of rg) changed ∙ modify-Frame g (map_values flag_public) r.dict refl m h))
        (λ s keeper _.
          fold_inv (λ (q : Reduction). Frame q.dict) unflag_group
            (select (λ g. not (g == keeper)) flagged)
            (λ q g m.
              unflag_group-Frame q g (sub g (mem-select (λ i. not (i == keeper)) flagged m).0))
            _ h)

  rescue-Frame :
      (dropped : List Ref) (d : SeadexDict)
      → ((ref : Ref) → Memᴰ ref dropped → Memᴰ ref.0 names)
      → Frame d
      → Frame (rescue_dropped_coverage names dropped d)
  unfolding rescue_dropped_coverage rescue_step modify_url
  rescue-Frame dropped d sub h =
      fold_inv (λ (st : List ParsedKey × SeadexDict). Frame st.1) rescue_step
        (select (is_rescuable d) dropped)
        (λ st ref m k.
          if_ind (λ (q : List ParsedKey × SeadexDict). Frame q.1) _ (λ _. k)
            (λ _.
              modify-Frame ref.0 (modify ref.1 (flag false)) st.1 refl
                (sub ref (mem-select (is_rescuable d) dropped m).0) k))
        (survivor_keys names d, d) h

-- A group that is not of the set keeps its urls as they are.
pub reduce_step-Frame :
    (names : List Text) (rg : Text) (d : SeadexDict) (skips : PrivateOnlySkips)
    → contains rg names ≡ false
    → urls_of rg (reduce_step (d, skips) names).0 ≡ urls_of rg d
unfolding reduce_step
reduce_step-Frame names rg d skips out =
    let test : Text → Bool = λ g. is_flagged (urls_of g d) in
    let flagged = select test names in
    let start : Reduction = record { dict = d; skips = skips; dropped = [] } in
    let a = reduce_same_files_set-Accounts d flagged names start (start-Accounts d flagged skips) in
    if_ind (λ (st : SeadexDict × PrivateOnlySkips). urls_of rg st.0 ≡ urls_of rg d)
      (is_empty flagged) (λ _. refl)
      (λ _.
        rescue-Frame names rg out d _ _ (λ ref n. (mem-select test names (a.of_flagged ref n)).0)
          (reduce_same_files_set-Frame names rg out d flagged start
            (λ g m. (mem-select test names m).0) refl))

-- What the survivors of a set carry depends on the groups of the set alone.
pub survivor_keys-cong :
    (names : List Text) (d d' : SeadexDict)
    → ((rg : Text) → Memᴰ rg names → urls_of rg d' ≡ urls_of rg d)
    → survivor_keys names d' ≡ survivor_keys names d
unfolding survivor_keys
survivor_keys-cong [] d d' h = refl
survivor_keys-cong (rg ∷ names) d d' h =
    rw (h rg (Memᴰ.head refl), survivor_keys-cong names d d' (λ g m. h g (Memᴰ.tail m))) refl
