-- ===== src/Episodes/Trust.antt =====
-- The trust policy of a snapshot, and the judgment of a file under it.
use mathlib.Core.List.{append_assoc, append-nil}
use pearlarr.Base.{
  ℕ, Bool, true, false, not, ◌&&◌, ◌||◌, Option, none, some, List, [], ◌∷◌, ◌++◌, ◌≡◌, refl, sym,
  ap, ◌∙◌, inl, inr, ◌==◌, nat_eq, list_eq, option_eq, get, put, get-put, set_default,
  get-set_default, contains, is_empty, is_some, some_inj, fold, fold_inv, if◌then◌else◌, if_ind,
  Bool-cases,
}
use pearlarr.Text.{Text, normalize_group, normalize_rg}
use pearlarr.Planner.Types.{GuardFacts}
use pearlarr.Imports.Record.{OwnGroup}
use pearlarr.Episodes.Snapshot.{
  TrustPolicy, GroupVotes, trust_entry, stale_names, vote, sibling_step, size_gate, own_vote,
  trusted_groups,
}

-- the sizes of the siblings that share the normal name
unfoldable pub shared_sizes : Text → List OwnGroup → List ℕ
shared_sizes norm [] = []
shared_sizes norm (g ∷ gs) =
    let rest = shared_sizes norm gs in
    if normalize_rg (some g.release_group) == some norm then g.sizes ++ rest else rest

vote-sizes :
    (stale : List Text) (norm : Text) (state : TrustPolicy × List ℕ) (sizes : List ℕ)
    (name : Option Text)
    → (vote stale (some norm) state sizes name).1
      ≡ (if name == some norm then state.1 ++ sizes else state.1)
unfolding vote
vote-sizes stale norm (trusted, own_sizes) sizes none = refl
vote-sizes stale norm (trusted, own_sizes) sizes (some n) = refl

sibling_step-sizes :
    (stale : List Text) (norm : Text) (state : TrustPolicy × List ℕ) (g : OwnGroup)
    → (sibling_step stale (some norm) state g).1
      ≡ (if normalize_rg (some g.release_group) == some norm then state.1 ++ g.sizes else state.1)
unfolding sibling_step
sibling_step-sizes stale norm state g =
    vote-sizes stale norm state g.sizes (normalize_rg (some g.release_group))

fold-sizes :
    (stale : List Text) (norm : Text) (gs : List OwnGroup) (state : TrustPolicy × List ℕ)
    → (fold (sibling_step stale (some norm)) state gs).1 ≡ state.1 ++ shared_sizes norm gs
unfolding shared_sizes
fold-sizes stale norm [] state = sym (append-nil state.1)
fold-sizes stale norm (g ∷ gs) state =
    let ih = fold-sizes stale norm gs (sibling_step stale (some norm) state g) in
    let here = sibling_step-sizes stale norm state g in
    elim (Bool-cases (normalize_rg (some g.release_group) == some norm)) [
      | inl h ↦
          let grown : (sibling_step stale (some norm) state g).1 ≡ state.1 ++ g.sizes =
            here ∙ rw h refl in
          ih ∙ rw (grown, h) (append_assoc state.1 g.sizes (shared_sizes norm gs))
      | inr h ↦
          let same : (sibling_step stale (some norm) state g).1 ≡ state.1 = here ∙ rw h refl in
          ih ∙ rw (same, h) refl
    ]

-- Every group of the policy is trusted by name.
ByName : TrustPolicy → Type 0
ByName trusted = (g : Text) (v : Option (List ℕ)) → get g trusted ≡ some v → v ≡ none

if_by_name :
    (test : Bool) (o : Option (Option (List ℕ))) (v : Option (List ℕ))
    → ((w : Option (List ℕ)) → o ≡ some w → w ≡ none)
    → (if test then some none else o) ≡ some v
    → v ≡ none
if_by_name true o v h e = sym (some_inj e)
if_by_name false o v h e = h v e

put-ByName : (norm : Text) (trusted : TrustPolicy) → ByName trusted → ByName (put norm none trusted)
unfolding ByName
put-ByName norm trusted by_name g v e =
    if_by_name (g == norm) (get g trusted) v (by_name g) (sym (get-put g norm none trusted) ∙ e)

set_default-ByName :
    (norm : Text) (trusted : TrustPolicy) → ByName trusted → ByName (set_default norm none trusted)
unfolding ByName
set_default-ByName norm trusted by_name g v e =
    if_by_name (g == norm && not (is_some (get g trusted))) (get g trusted) v (by_name g)
      (sym (get-set_default g norm none trusted) ∙ e)

none_named : ByName []
unfolding ByName
none_named g v e = absurd (cc)

trust_entry-ByName :
    (trusted : TrustPolicy) (g : Text) → ByName trusted → ByName (trust_entry trusted g)
unfolding trust_entry
trust_entry-ByName trusted g by_name =
    if_ind ByName (is_empty (normalize_group g) || is_empty g) (λ _. by_name)
      (λ _. put-ByName (normalize_group g) trusted by_name)

vote-ByName :
    (stale : List Text) (own : Option Text) (state : TrustPolicy × List ℕ) (sizes : List ℕ)
    (name : Option Text)
    → ByName state.0
    → ByName (vote stale own state sizes name).0
unfolding vote
vote-ByName stale own (trusted, own_sizes) sizes none by_name = by_name
vote-ByName stale own (trusted, own_sizes) sizes (some norm) by_name =
    if_ind ByName (contains norm stale) (λ _. by_name)
      (λ _. set_default-ByName norm trusted by_name)

siblings-ByName :
    (stale : List Text) (own : Option Text) (gs : List OwnGroup) (state : TrustPolicy × List ℕ)
    → ByName state.0
    → ByName (fold (sibling_step stale own) state gs).0
unfolding sibling_step
siblings-ByName stale own gs =
    fold_inv (λ (st : TrustPolicy × List ℕ). ByName st.0) (sibling_step stale own) gs
      (λ st g m h. vote-ByName stale own st g.sizes (normalize_rg (some g.release_group)) h)

-- what a policy by name reads
read_by_name :
    (o : Option (Option (List ℕ)))
    → ((v : Option (List ℕ)) → o ≡ some v → v ≡ none)
    → o ≡ (if is_some o then some none else none)
read_by_name none h = refl
read_by_name (some v) h = ap (λ w. some w) (h v refl)

own_vote-gate :
    (norm : Text) (state : TrustPolicy × List ℕ) (g : Text)
    → is_empty norm ≡ false
    → ByName state.0
    → (let trusted = own_vote (some norm) state in
        get g trusted ≡ (
          if g == norm
          then some (size_gate state.1)
          else if is_some (get g trusted)
          then some none
          else none))
unfolding own_vote ByName
own_vote-gate norm (trusted, own_sizes) g full by_name =
    let at_g = get-put g norm (size_gate own_sizes) trusted in
    rw full (
      at_g ∙ (elim (Bool-cases (g == norm)) [
        | inl h ↦ rw h refl
        | inr h ↦ rw (h, at_g, h) (read_by_name (get g trusted) (by_name g))
      ]))

-- In the policy of a torrent whose own group has a name, that group is trusted at the sizes of its own listing and of
-- the siblings of the same normal name, by name alone when there are none; every other group that the policy trusts
-- is trusted by name.
pub trusted_groups-own :
    (guards : GuardFacts) (votes : GroupVotes) (norm g : Text)
    → normalize_rg (some votes.own.release_group) ≡ some norm
    → is_empty norm ≡ false
    → (let trusted = trusted_groups guards votes in
        get g trusted ≡ (
          if g == norm
          then some (size_gate (votes.own.sizes ++ shared_sizes norm votes.siblings))
          else if is_some (get g trusted)
          then some none
          else none))
unfolding trusted_groups
trusted_groups-own guards votes norm g own full =
    let stale = stale_names guards.stale_groups in
    let start : TrustPolicy × List ℕ = (fold trust_entry [] guards.entry_groups, votes.own.sizes) in
    let entries =
      fold_inv ByName trust_entry guards.entry_groups (λ t e m. trust_entry-ByName t e) []
        none_named in
    let by_name = siblings-ByName stale (some norm) votes.siblings start entries in
    let state = fold (sibling_step stale (some norm)) start votes.siblings in
    let sizes = fold-sizes stale norm votes.siblings start in
    rw (own, ← sizes) (own_vote-gate norm state g full by_name)
