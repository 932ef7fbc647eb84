-- ===== src/Planner/Reduce/Rescue.antt =====
-- `_rescue_dropped_coverage`: its accumulator, and the loop over the dropped urls.
use mathlib.Core.List.Memᴰ
use pearlarr.Base.{
  true, false, ◌&&◌, ◌≡◌, refl, ap, sym, ◌∙◌, ◌⊎◌, inl, inr, some, List, [], ◌∷◌, Memᴰ, arith, ◌==◌,
  contains, contains-append, subset, subset-contains, Bool-cases, if_ind, nat_eq, list_eq,
  option_eq, pair_eq, fold, ==_refl,
}
use pearlarr.Text.{Text}
use pearlarr.Releases.{UrlItem, SeadexDict, flag, modify_url, url_at}
use pearlarr.Releases.Flags.{url_at-modify_url}
use pearlarr.Planner.Coverage.{ParsedKey}
use pearlarr.Planner.Reduce.{Ref, survivor_keys, episodes_at, rescue_step}
use pearlarr.Planner.Reduce.Refines.{HasUrlKeys}
use pearlarr.Planner.Reduce.Survivors.{
  survivor_keys-intro, survivor_keys-flag, HasUrlKeys-flag, episodes_at-flag,
}

module _ (names : List Text) where
  -- What the rescue's accumulator holds is carried.
  pub record IsCarried (st : List ParsedKey × SeadexDict) : Type 0 where
    pub keyed : HasUrlKeys st.1
    pub carried :
        (key : ParsedKey)
        → contains key st.0 ≡ true
        → contains key (survivor_keys names st.1) ≡ true

  -- The url of the reference is public, and in a group of the set.
  pub record InSet (d : SeadexDict) (ref : Ref) : Type 0 where
    pub named : Memᴰ ref.0 names
    pub item : UrlItem
    pub found : url_at ref.0 ref.1 d ≡ some item
    pub is_public : item.is_public ≡ true

  InSet-flag :
      {d : SeadexDict} (rg url : Text) (ref : Ref)
      → InSet d ref
      → InSet (modify_url rg url (flag false) d) ref
  unfolding flag
  InSet-flag {d} rg url (i, j) s = elim (Bool-cases ((rg == i) && (url == j))) [
    | inl t ↦ record {
      named = s.named;
      item = flag false s.item;
      found = url_at-modify_url rg url (flag false) i j d ∙ rw (t, s.found);
      is_public = s.is_public;
    }
    | inr t ↦ record {
      named = s.named;
      item = s.item;
      found = url_at-modify_url rg url (flag false) i j d ∙ rw (t, s.found);
      is_public = s.is_public;
    }
  ]

  -- A flagged reference carries its own episodes.
  carries_flagged :
      (d : SeadexDict) (ref : Ref) (key : ParsedKey)
      → InSet d ref
      → contains key (episodes_at d ref) ≡ true
      → contains key (survivor_keys names (modify_url ref.0 ref.1 (flag false) d)) ≡ true
  unfolding episodes_at flag
  carries_flagged d (rg, url) key s h =
      survivor_keys-intro (modify_url rg url (flag false) d) key names rg url
        {u = flag false s.item} s.named
        (url_at-modify_url rg url (flag false) rg url d ∙ rw (==_refl rg, ==_refl url, s.found))
        (record { download = refl; is_public = s.is_public; listed = ground (arith, h, s.found) })

  rescue_step-IsCarried :
      (st : List ParsedKey × SeadexDict) (ref : Ref)
      → InSet st.1 ref
      → IsCarried st
      → IsCarried (rescue_step st ref)
  unfolding rescue_step
  rescue_step-IsCarried (keys, d) ref s c =
      if_ind IsCarried (subset (episodes_at d ref) keys) (λ _. c)
        λ _. record {
          keyed = HasUrlKeys-flag d ref.0 ref.1 c.keyed;
          carried = λ key h. elim (Bool-cases (contains key keys)) [
            | inl old ↦ survivor_keys-flag d ref.0 ref.1 names key c.keyed (c.carried key old)
            | inr new ↦
                carries_flagged d ref key s
                  (ground (arith, new, h, contains-append key keys (episodes_at d ref)))
          ];
        }

  rescue_step-grows :
      (st : List ParsedKey × SeadexDict) (ref : Ref) (key : ParsedKey)
      → contains key st.0 ≡ true
      → contains key (rescue_step st ref).0 ≡ true
  unfolding rescue_step
  rescue_step-grows (keys, d) ref key h =
      if_ind (λ (st : List ParsedKey × SeadexDict). contains key st.0 ≡ true)
        (subset (episodes_at d ref) keys) (λ _. h)
        (λ _. contains-append key keys (episodes_at d ref) ∙ rw h)

  rescue_step-adds :
      (st : List ParsedKey × SeadexDict) (ref : Ref) (key : ParsedKey)
      → contains key (episodes_at st.1 ref) ≡ true
      → contains key (rescue_step st ref).0 ≡ true
  unfolding rescue_step
  rescue_step-adds (keys, d) ref key h =
      if_ind (λ (st : List ParsedKey × SeadexDict). contains key st.0 ≡ true)
        (subset (episodes_at d ref) keys) (λ t. subset-contains key (episodes_at d ref) keys t h)
        (λ _. ground (arith, h, contains-append key keys (episodes_at d ref)))

  episodes_at-step :
      (st : List ParsedKey × SeadexDict) (ref other : Ref)
      → episodes_at (rescue_step st ref).1 other ≡ episodes_at st.1 other
  unfolding rescue_step
  episodes_at-step (keys, d) ref other =
      if_ind (λ (st : List ParsedKey × SeadexDict). episodes_at st.1 other ≡ episodes_at d other)
        (subset (episodes_at d ref) keys) (λ _. refl) (λ _. episodes_at-flag d ref.0 ref.1 other)

  InSet-step :
      (st : List ParsedKey × SeadexDict) (ref other : Ref)
      → InSet st.1 other
      → InSet (rescue_step st ref).1 other
  unfolding rescue_step
  InSet-step (keys, d) ref other s =
      if_ind (λ (st : List ParsedKey × SeadexDict). InSet st.1 other)
        (subset (episodes_at d ref) keys) (λ _. s) (λ _. InSet-flag ref.0 ref.1 other s)

  -- After the loop every key that was carried and every key of a reference is carried.
  pub rescue_loop :
      (refs : List Ref) (st : List ParsedKey × SeadexDict) (key : ParsedKey)
      → ((ref : Ref) → Memᴰ ref refs → InSet st.1 ref)
      → IsCarried st
      → (contains key st.0 ≡ true)
        ⊎ ((ref : Ref) × Memᴰ ref refs × (contains key (episodes_at st.1 ref) ≡ true))
      → contains key (survivor_keys names (fold rescue_step st refs).1) ≡ true
  rescue_loop [] st key ok c (inl h) = c.carried key h
  rescue_loop [] st key ok c (inr (ref, m, h)) = elim m [ ]
  rescue_loop (r ∷ refs) st key ok c h =
      rescue_loop refs (rescue_step st r) key (λ ref m. InSet-step st r ref (ok ref (Memᴰ.tail m)))
        (rescue_step-IsCarried st r (ok r (Memᴰ.head refl)) c) (next h)
    where
      next :
          (contains key st.0 ≡ true)
            ⊎ ((ref : Ref) × Memᴰ ref (r ∷ refs) × (contains key (episodes_at st.1 ref) ≡ true))
          → (contains key (rescue_step st r).0 ≡ true)
            ⊎ ((ref : Ref) × Memᴰ ref refs
                × (contains key (episodes_at (rescue_step st r).1 ref) ≡ true))
      next (inl k) = inl (rescue_step-grows st r key k)
      next (inr (ref, m, k)) = elim (Memᴰ.cases_cons m) [
        | inl e ↦
            inl
              (rescue_step-adds st r key (ap (λ x. contains key (episodes_at st.1 x)) (sym e) ∙ k))
        | inr m' ↦ inr (ref, m', ap (contains key) (episodes_at-step st r ref) ∙ k)
      ]
