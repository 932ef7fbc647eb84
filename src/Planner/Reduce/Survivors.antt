-- ===== src/Planner/Reduce/Survivors.antt =====
-- `survivor_keys`: the episodes that the flagged public urls of a set carry.

use pearlarr.Base.{
  true, false, ◌&&◌, ◌≡◌, refl, ap, ◌∙◌, inl, inr, some, List, [], ◌∷◌, Memᴰ, arith, ◌==◌, values,
  get_of_value, mem-values, contains, contains-append, Bool-cases, unique, nat_eq, list_eq,
  option_eq, pair_eq, keys-modify, modify, sym,
}
use pearlarr.Text.{Text}
use pearlarr.Releases.{UrlItem, SeadexDict, flag, modify_url, urls_of, url_at}
use pearlarr.Releases.Flags.{url_at-modify_url, keys-urls_of-modify_urls}
use pearlarr.Planner.Coverage.{ParsedKey, get_episode_keys}
use pearlarr.Planner.Reduce.{Ref, carried_keys, survivor_keys, episodes_at}
use pearlarr.Planner.Reduce.Refines.{HasUrlKeys}

-- The url carries the episode: it will be grabbed, and a private one would be refused.
pub record Carries (u : UrlItem) (key : ParsedKey) : Type 0 where
  pub download : u.download ≡ true
  pub is_public : u.is_public ≡ true
  pub listed : contains key (get_episode_keys u.episodes) ≡ true

carried_keys-intro :
    (us : List UrlItem) {u : UrlItem} (key : ParsedKey)
    → Memᴰ u us
    → Carries u key
    → contains key (carried_keys us) ≡ true
unfolding carried_keys
carried_keys-intro [] key m c = elim m [ ]
carried_keys-intro (v ∷ us) key (Memᴰ.head e) c =
    let down = ap (λ (x : UrlItem). x.download) (sym e) ∙ c.download in
    let public = ap (λ (x : UrlItem). x.is_public) (sym e) ∙ c.is_public in
    let has = ap (λ (x : UrlItem). contains key (get_episode_keys x.episodes)) (sym e) ∙ c.listed in
    ground (
      arith,
      down,
      public,
      has,
      contains-append key (get_episode_keys v.episodes) (carried_keys us),
    )
carried_keys-intro (v ∷ us) key (Memᴰ.tail m) c = ground (
  arith,
  carried_keys-intro us key m c,
  contains-append key (get_episode_keys v.episodes) (carried_keys us),
)

carried_keys-elim :
    (us : List UrlItem) (key : ParsedKey)
    → contains key (carried_keys us) ≡ true
    → (u : UrlItem) × Memᴰ u us × Carries u key
unfolding carried_keys
carried_keys-elim [] key h = absurd (cc)
carried_keys-elim (v ∷ us) key h = elim (Bool-cases (v.download && v.is_public)) [
  | inl t ↦ elim (Bool-cases (contains key (get_episode_keys v.episodes))) [
    | inl k ↦ (
      v,
      Memᴰ.head refl,
      record { download = ground arith; is_public = ground arith; listed = k },
    )
    | inr k ↦
        let (u, m, c) = carried_keys-elim us key (
          ground (
            arith,
            t,
            h,
            k,
            contains-append key (get_episode_keys v.episodes) (carried_keys us),
          )) in
        (u, Memᴰ.tail m, c)
  ]
  | inr t ↦ let (u, m, c) = carried_keys-elim us key (ground (arith, t, h)) in (u, Memᴰ.tail m, c)
]

module _ (d : SeadexDict) (key : ParsedKey) where
  pub survivor_keys-intro :
      (names : List Text) (rg url : Text) {u : UrlItem}
      → Memᴰ rg names
      → url_at rg url d ≡ some u
      → Carries u key
      → contains key (survivor_keys names d) ≡ true
  unfolding survivor_keys
  survivor_keys-intro [] rg url m e c = elim m [ ]
  survivor_keys-intro (n ∷ names) rg url (Memᴰ.head h) e c =
      let here =
        carried_keys-intro (values (urls_of rg d)) key (mem-values url (urls_of rg d) e) c in
      let here' = ap (λ g. contains key (carried_keys (values (urls_of g d)))) (sym h) ∙ here in
      ground (
        arith,
        here',
        contains-append key (carried_keys (values (urls_of n d))) (survivor_keys names d),
      )
  survivor_keys-intro (n ∷ names) rg url (Memᴰ.tail m) e c = ground (
    arith,
    survivor_keys-intro names rg url m e c,
    contains-append key (carried_keys (values (urls_of n d))) (survivor_keys names d),
  )

  pub survivor_keys-elim :
      (names : List Text)
      → HasUrlKeys d
      → contains key (survivor_keys names d) ≡ true
      → (rg : Text) × (url : Text) × (u : UrlItem) × Memᴰ rg names
        × (url_at rg url d ≡ some u)
        × Carries u key
  unfolding survivor_keys
  survivor_keys-elim [] keyed h = absurd (cc)
  survivor_keys-elim (n ∷ names) keyed h =
      elim (Bool-cases (contains key (carried_keys (values (urls_of n d))))) [
        | inl t ↦
            let (u, m, c) = carried_keys-elim (values (urls_of n d)) key t in
            let (url, e) = get_of_value (urls_of n d) (keyed n) m in
            (n, url, u, Memᴰ.head refl, e, c)
        | inr t ↦
            let (rg, url, u, m, e, c) = survivor_keys-elim names keyed (
              ground (
                arith,
                t,
                h,
                contains-append key (carried_keys (values (urls_of n d))) (survivor_keys names d),
              )) in
            (rg, url, u, Memᴰ.tail m, e, c)
      ]

module _ (d : SeadexDict) (rg url : Text) where
  pub HasUrlKeys-flag : HasUrlKeys d → HasUrlKeys (modify_url rg url (flag false) d)
  unfolding modify_url
  HasUrlKeys-flag h i =
      ap unique (
        keys-urls_of-modify_urls rg (modify url (flag false)) i d refl
          (keys-modify url (flag false)))
      ∙ h i

  -- Flagging a url takes no episode away.
  pub survivor_keys-flag :
      (names : List Text) (key : ParsedKey)
      → HasUrlKeys d
      → contains key (survivor_keys names d) ≡ true
      → contains key (survivor_keys names (modify_url rg url (flag false) d)) ≡ true
  unfolding flag
  survivor_keys-flag names key keyed h =
      let (i, j, u, m, e, c) = survivor_keys-elim d key names keyed h in
      elim (Bool-cases ((rg == i) && (url == j))) [
        | inl t ↦
            survivor_keys-intro (modify_url rg url (flag false) d) key names i j {u = flag false u}
              m (url_at-modify_url rg url (flag false) i j d ∙ rw (t, e))
              (record { download = refl; is_public = c.is_public; listed = c.listed })
        | inr t ↦
            survivor_keys-intro (modify_url rg url (flag false) d) key names i j {u = u} m
              (url_at-modify_url rg url (flag false) i j d ∙ rw (t, e)) c
      ]

  pub episodes_at-flag :
      (ref : Ref) → episodes_at (modify_url rg url (flag false) d) ref ≡ episodes_at d ref
  unfolding episodes_at flag
  episodes_at-flag (i, j) = ground (arith, url_at-modify_url rg url (flag false) i j d)
