-- ===== src/Filter/Narrow.antt =====
-- `_narrow_candidates`, `_augment_with_public_fallbacks` and the torrents that reach the
-- dictionary.
use mathlib.Core.List.{append-nil}
use mathlib.Core.List.Memᴰ
use pearlarr.Base.{
  Bool, true, false, not, ◌&&◌, ◌≡◌, refl, sym, ap, ◌∙◌, inl, inr, List, [], ◌∷◌, ◌++◌, ◌⊎◌, Memᴰ,
  arith, Bool-cases, if_ind, if◌then◌else◌, ◌==◌, select, any, is_empty, map, contains, nat_eq,
  list_eq, mem-select, is_empty-select, ==_refl, eq_of_==,
}
use pearlarr.Text.{Text}
use pearlarr.Filter.{
  TorrentRecord, SeadexConfig, is_fallback_action, preferred_audio, narrow_candidates,
  is_public_torrent, alternatives, augment_with_public_fallbacks, needs_fallback,
}

module _ (cfg : SeadexConfig) where
  -- Every torrent that the cascade keeps was in the pool.
  pub mem-narrow_candidates :
      (torrents : List TorrentRecord) {t : TorrentRecord}
      → Memᴰ t (narrow_candidates cfg torrents)
      → Memᴰ t torrents
  unfolding narrow_candidates preferred_audio
  mem-narrow_candidates torrents {t} =
      if_ind (λ (l : List TorrentRecord). Memᴰ t l → Memᴰ t torrents)
        (cfg.want_best && not (is_empty (select (λ u. u.is_best) (preferred_audio cfg torrents))))
        (λ _ m. audio (mem-select (λ u. u.is_best) (preferred_audio cfg torrents) m).0)
        (λ _ m. audio m)
    where
      wanted : TorrentRecord → Bool
      wanted u = if cfg.prefer_dual_audio then u.is_dual_audio else not u.is_dual_audio

      audio : Memᴰ t (preferred_audio cfg torrents) → Memᴰ t torrents
      audio =
          if_ind (λ (l : List TorrentRecord). Memᴰ t l → Memᴰ t torrents)
            (is_empty (select wanted torrents)) (λ _ m. m) (λ _ m. (mem-select wanted torrents m).0)

  is_empty-preferred_audio :
      (torrents : List TorrentRecord) → is_empty (preferred_audio cfg torrents) ≡ is_empty torrents
  unfolding preferred_audio
  is_empty-preferred_audio torrents = ground (arith, is_empty-select wanted torrents)
    where
      wanted : TorrentRecord → Bool
      wanted u = if cfg.prefer_dual_audio then u.is_dual_audio else not u.is_dual_audio

  -- The cascade empties no pool: it leaves a torrent exactly when there was one.
  pub is_empty-narrow_candidates :
      (torrents : List TorrentRecord)
      → is_empty (narrow_candidates cfg torrents) ≡ is_empty torrents
  unfolding narrow_candidates
  is_empty-narrow_candidates torrents = ground (
    arith,
    is_empty-preferred_audio torrents,
    is_empty-select (λ u. u.is_best) (preferred_audio cfg torrents),
  )

module _ (tracker_is_public : Text → Bool) (private_trackers : List Text) (cfg : SeadexConfig)
    (final candidates : List TorrentRecord) where
  abbrev augmented : List TorrentRecord × List Text
  augmented = augment_with_public_fallbacks tracker_is_public private_trackers cfg final candidates

  -- What the augmented list holds: every candidate, and beside them alone public torrents of the
  -- entry that no candidate has the url of. A url is named a fallback exactly when one of those
  -- has it.
  pub record IsAugmented (picked : List TorrentRecord) (fallback_urls : List Text) : Type 0 where
    pub extra : List TorrentRecord
    pub extends : picked ≡ candidates ++ extra
    pub urls : fallback_urls ≡ map (λ (t : TorrentRecord). t.url) extra
    pub offered :
        (t : TorrentRecord)
        → Memᴰ t extra
        → Memᴰ t final
          × (is_public_torrent tracker_is_public private_trackers t ≡ true)
          × (contains t.url (map (λ (c : TorrentRecord). c.url) candidates) ≡ false)

  nothing : IsAugmented candidates []
  nothing = record {
    extra = [];
    extends = sym (append-nil candidates);
    urls = refl;
    offered = λ t m. absurd (Memᴰ.not-nil m);
  }

  offered_lem :
      (t : TorrentRecord)
      → Memᴰ t (
          narrow_candidates cfg
            (alternatives tracker_is_public private_trackers cfg final candidates))
      → Memᴰ t final
        × (is_public_torrent tracker_is_public private_trackers t ≡ true)
        × (contains t.url (map (λ (c : TorrentRecord). c.url) candidates) ≡ false)
  offered_lem t m =
      let (n, h) = mem-select _ final (mem-narrow_candidates cfg _ m) in
      (n, ground arith, ground arith)

  pub augment-IsAugmented : IsAugmented augmented.0 augmented.1
  unfolding augment_with_public_fallbacks
  augment-IsAugmented =
      if_ind (λ (st : List TorrentRecord × List Text). IsAugmented st.0 st.1)
        (not (is_fallback_action cfg.private_releases)) (λ _. nothing)
        (λ _.
          if_ind (λ (st : List TorrentRecord × List Text). IsAugmented st.0 st.1)
            (not (any (needs_fallback tracker_is_public private_trackers candidates) candidates))
            (λ _. nothing)
            (λ _. record { extra = _; extends = refl; urls = refl; offered = offered_lem }))

contains-map :
    (l : List TorrentRecord) {t : TorrentRecord}
    → Memᴰ t l
    → contains t.url (map (λ (c : TorrentRecord). c.url) l) ≡ true
contains-map [] m = elim m [ ]
contains-map (x ∷ l) {t} (Memᴰ.head h) =
    ground (arith, ==_refl t.url, ap (λ (c : TorrentRecord). t.url == c.url) h)
contains-map (x ∷ l) (Memᴰ.tail m) = ground (arith, contains-map l m)

with_url :
    (l : List TorrentRecord) (url : Text)
    → contains url (map (λ (c : TorrentRecord). c.url) l) ≡ true
    → (t : TorrentRecord) × Memᴰ t l × (url ≡ t.url)
with_url [] url h = absurd (cc)
with_url (x ∷ l) url h = elim (Bool-cases (url == x.url)) [
  | inl e ↦ (x, Memᴰ.head refl, eq_of_== url x.url e)
  | inr e ↦ let (t, m, k) = with_url l url (ground arith) in (t, Memᴰ.tail m, k)
]

module _ (tracker_is_public : Text → Bool) (private_trackers : List Text) (cfg : SeadexConfig)
    (final candidates picked : List TorrentRecord) (fallback_urls : List Text)
    (a : IsAugmented tracker_is_public private_trackers cfg final candidates picked fallback_urls)
    (t : TorrentRecord) (m : Memᴰ t picked) where
  pub picked_lem : Memᴰ t candidates ⊎ Memᴰ t a.extra
  picked_lem = Memᴰ.append_cases candidates (rw a.extends at m)

  -- A picked torrent whose url is named a fallback is public.
  pub fallback_is_public :
      contains t.url fallback_urls ≡ true
      → is_public_torrent tracker_is_public private_trackers t ≡ true
  fallback_is_public h = elim picked_lem [
    | inr n ↦ (a.offered t n).1
    | inl n ↦
        let (x, o, e) = with_url a.extra t.url (ap (contains t.url) (sym a.urls) ∙ h) in
        let out : contains x.url (map (λ (c : TorrentRecord). c.url) candidates) ≡ false =
          (a.offered x o).2 in
        absurd (cc (contains-map candidates n, out, e))
  ]
