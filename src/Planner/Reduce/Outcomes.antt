-- ===== src/Planner/Reduce/Outcomes.antt =====
-- The three ways in which the reduction of a same-files set ends.
use pearlarr.Base.{
  Bool, ◌≡◌, refl, inl, inr, some, List, [], ◌∷◌, Memᴰ, Option-cases, if_ind, first, first-mem,
  select, mem-select, any,
}
use pearlarr.Text.{Text}
use pearlarr.Releases.{SeadexDict, urls_of}
use pearlarr.Planner.Types.{PrivateOnlySkips}
use pearlarr.Planner.Reduce.{
  Reduction, is_public_group, flagged_all_addable, unflag_all, drop_losers,
  promote_public_alternative, stand_in, hold_set, soft_skip, reduce_private, settle, reduce_mixed,
  reduce_by_public, reduce_same_files_set, is_fallback_group,
}

module _ {ℓ} (Q : Reduction → Type ℓ) (names flagged : List Text) (r : Reduction)
    (emptied : (s : PrivateOnlySkips) → Q (unflag_all flagged (record r { skips = s })))
    (promoted : (s : PrivateOnlySkips) (rg : Text) (d : SeadexDict)
      → promote_public_alternative names r.dict ≡ some (rg, d)
      → Q (unflag_all flagged (record r { dict = d; skips = s })))
    (settled : (s : PrivateOnlySkips) (keeper : Text)
      → Memᴰ keeper flagged
      → Q (drop_losers flagged keeper (record r { skips = s }))) where
  private_cases : (upgrade_pending : Bool) → Q (reduce_private names flagged upgrade_pending r)
  unfolding reduce_private stand_in hold_set soft_skip
  private_cases upgrade_pending =
      if_ind Q upgrade_pending
        (λ _. elim (Option-cases (promote_public_alternative names r.dict)) [
          | inl e ↦ rw e (emptied _)
          | inr ((rg, d), e) ↦ rw e (promoted _ rg d e)
        ])
        (λ _.
          if_ind Q (any (λ rg. is_fallback_group (urls_of rg r.dict)) names)
            {x = soft_skip flagged r}
            {y = hold_set flagged (any (λ rg. is_fallback_group (urls_of rg r.dict)) names) r}
            (λ _. emptied _) (λ _. emptied _))

  mixed_cases :
      (degraded : Text) (upgrade_pending : Bool)
      → Memᴰ degraded flagged
      → Q (reduce_mixed names flagged degraded upgrade_pending r)
  unfolding reduce_mixed stand_in settle
  mixed_cases degraded upgrade_pending m =
      if_ind Q upgrade_pending
        (λ _. elim (Option-cases (promote_public_alternative names r.dict)) [
          | inl e ↦ rw e (settled _ degraded m)
          | inr ((rg, d), e) ↦ rw e (promoted _ rg d e)
        ])
        (λ _. settled _ degraded m)

  public_cases :
      (public_flagged : List Text) (upgrade_pending : Bool)
      → ((g : Text) → Memᴰ g public_flagged → Memᴰ g flagged)
      → Q (reduce_by_public names flagged public_flagged upgrade_pending r)
  unfolding reduce_by_public settle
  public_cases [] upgrade_pending sub = private_cases upgrade_pending
  public_cases (p ∷ ps) upgrade_pending sub =
      elim (Option-cases (first (λ rg. flagged_all_addable (urls_of rg r.dict)) (p ∷ ps))) [
        | inl n ↦ rw (n, reduce_by_public) (mixed_cases p upgrade_pending (sub p (Memᴰ.head refl)))
        | inr (k, f) ↦
            rw (f, reduce_by_public)
              (settled _ k
                (sub k (first-mem (λ rg. flagged_all_addable (urls_of rg r.dict)) (p ∷ ps) f).0))
      ]

  pub reduce_same_files_set_cases : Q (reduce_same_files_set names flagged r)
  unfolding reduce_same_files_set
  reduce_same_files_set_cases =
      public_cases (select (λ rg. is_public_group (urls_of rg r.dict)) flagged) _
        (λ g m. (mem-select _ flagged m).0)
