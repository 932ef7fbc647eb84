-- ===== src/Filter/Build.antt =====
-- `SeadexReleaseFilter.build`.
use mathlib.Core.List.Memᴰ
use mathlib.Core.Path.{subst}
use pearlarr.Base.{
  Bool, true, false, not, ◌&&◌, ◌≡◌, sym, ap, ◌∙◌, inl, inr, none, some, List, [], Memᴰ, arith,
  Bool-cases, if_ind, if◌then◌else◌, ◌==◌, eq_of_==, select, any, contains, nat_eq, list_eq,
  mem-select, fold, fold_inv, Dict, get, put, values, get-modify-set_default, mem-put, mem_of_get,
  get-map_values, Option-cases,
}
use pearlarr.Text.{Text, casefold}
use pearlarr.Releases.{
  UrlItem, ReleaseGroup, SeadexDict, modify_urls, urls_of, url_at, ignore_tag_set,
  carries_ignored_tag,
}
use pearlarr.Filter.{
  TorrentRecord, SeadexConfig, narrow_candidates, prune_group, file_sizes, uncovered,
  prune_covered_private, final_torrents, add_torrent, url_item, build, is_public_torrent,
  augment_with_public_fallbacks,
}
use pearlarr.Filter.Narrow.{
  mem-narrow_candidates, IsAugmented, augment-IsAugmented, picked_lem, fallback_is_public,
}

-- Pruning keeps the urls of a group or filters them.
prune_cases :
    (Q : Dict Text UrlItem → Type 0) (rg : Text) (d : SeadexDict)
    → Q (urls_of rg d)
    → ((test : Text × UrlItem → Bool) → Q (select test (urls_of rg d)))
    → Q (urls_of rg (prune_covered_private d))
unfolding prune_covered_private prune_group
prune_cases Q rg d kept filtered = elim (Option-cases (get rg d)) [
  | inl e ↦
      let same : urls_of rg (prune_covered_private d) ≡ urls_of rg d =
        ground (arith, get-map_values rg prune_group d, e) in
      subst Q (sym same) kept
  | inr (g, e) ↦
      let now : urls_of rg (prune_covered_private d) ≡ (prune_group g).urls =
        ground (arith, get-map_values rg prune_group d, e) in
      let old : urls_of rg d ≡ g.urls = ground (arith, e) in
      subst Q (sym now) (
        if_ind (λ (h : ReleaseGroup). Q h.urls)
          (not (any (λ (u : UrlItem). u.is_public) (values g.urls))) (λ _. subst Q old kept)
          (λ _. subst (λ l. Q (select (uncovered g.urls) l)) old (filtered (uncovered g.urls))))
]

module _ (tracker_is_public : Text → Bool) (private_trackers : List Text) (cfg : SeadexConfig)
    (fallback_urls : List Text) where
  item : TorrentRecord → UrlItem
  item t = url_item tracker_is_public private_trackers cfg fallback_urls t

  urls_of-add_torrent :
      (rg : Text) (d : SeadexDict) (t : TorrentRecord)
      → urls_of rg (add_torrent tracker_is_public private_trackers cfg fallback_urls d t)
        ≡ (if rg == t.release_group then put t.url (item t) (urls_of rg d) else urls_of rg d)
  unfolding add_torrent modify_urls item
  urls_of-add_torrent rg d t =
      let dflt : ReleaseGroup = record { urls = []; tags = t.tags; all_episodes = none } in
      ground (
        arith,
        get-modify-set_default rg t.release_group
            (λ (g : ReleaseGroup). record g { urls = put t.url (item t) g.urls }) dflt d,
      )

  -- Every url of the dictionary is that of a torrent of the list.
  record Drawn (picked : List TorrentRecord) (d : SeadexDict) : Type 0 where
    items :
        (rg url : Text) (u : UrlItem)
        → Memᴰ (url, u) (urls_of rg d)
        → (t : TorrentRecord) × Memᴰ t picked
          × (t.release_group ≡ rg)
          × (t.url ≡ url)
          × (u ≡ item t)

  add_torrent-Drawn :
      (picked : List TorrentRecord) (d : SeadexDict) (t : TorrentRecord)
      → Memᴰ t picked
      → Drawn picked d
      → Drawn picked (add_torrent tracker_is_public private_trackers cfg fallback_urls d t)
  add_torrent-Drawn picked d t m h = record {
    items = λ rg url u. rw (urls_of-add_torrent rg d t) (
        if_ind
          (λ (l : Dict Text UrlItem).
            Memᴰ (url, u) l
            → (s : TorrentRecord) × Memᴰ s picked
              × (s.release_group ≡ rg)
              × (s.url ≡ url)
              × (u ≡ item s))
          (rg == t.release_group)
          (λ e n. elim (mem-put t.url (item t) (urls_of rg d) n) [
            | inl q ↦
                (t, m, sym (eq_of_== rg t.release_group e), sym (ap (λ p. p.0) q), ap (λ p. p.1) q)
            | inr o ↦ h.items rg url u o
          ])
          (λ _ n. h.items rg url u n));
  }

  prune-Drawn :
      (picked : List TorrentRecord) (d : SeadexDict)
      → Drawn picked d
      → Drawn picked (prune_covered_private d)
  prune-Drawn picked d h = record {
    items = λ rg url u.
        prune_cases
          (λ l.
            Memᴰ (url, u) l
            → (s : TorrentRecord) × Memᴰ s picked
              × (s.release_group ≡ rg)
              × (s.url ≡ url)
              × (u ≡ item s))
          rg d (h.items rg url u) (λ test m. h.items rg url u (mem-select test (urls_of rg d) m).0);
  }

  drawn :
      (picked : List TorrentRecord)
      → Drawn picked (
          prune_covered_private
            (fold (add_torrent tracker_is_public private_trackers cfg fallback_urls) [] picked))
  drawn picked = prune-Drawn picked _ (
      fold_inv (Drawn picked) (add_torrent tracker_is_public private_trackers cfg fallback_urls)
        picked (λ d t m. add_torrent-Drawn picked d t m) []
        (record { items = λ rg url u m. absurd (Memᴰ.not-nil m) }))

-- What a url of the built dictionary is, and how it came there.
pub record IsBuilt (tracker_is_public : Text → Bool) (private_trackers : List Text)
    (cfg : SeadexConfig) (torrents : List TorrentRecord) (rg url : Text) (u : UrlItem)
    : Type 0 where
  pub torrent : TorrentRecord
  pub listed : Memᴰ torrent torrents
  pub tracker : contains (casefold torrent.tracker) cfg.trackers ≡ true
  pub tags : carries_ignored_tag torrent.tags (ignore_tag_set cfg.ignore_tags) ≡ false
  pub group : torrent.release_group ≡ rg
  pub key : torrent.url ≡ url
  pub fresh : u.download ≡ false
  pub own_url : u.url ≡ url
  pub size : u.size ≡ file_sizes torrent
  pub is_public : u.is_public ≡ is_public_torrent tracker_is_public private_trackers torrent
  pub fallback : (u.is_fallback && not u.is_public) ≡ false

module _ (tracker_is_public : Text → Bool) (private_trackers : List Text) (cfg : SeadexConfig)
    (torrents : List TorrentRecord) where
  abbrev final : List TorrentRecord
  final = final_torrents tracker_is_public private_trackers cfg torrents

  abbrev picks : List TorrentRecord × List Text
  picks =
      augment_with_public_fallbacks tracker_is_public private_trackers cfg final
        (narrow_candidates cfg final)

  built-Drawn :
      Drawn tracker_is_public private_trackers cfg picks.1 picks.0
        (build tracker_is_public private_trackers cfg torrents)
  unfolding build
  built-Drawn = drawn tracker_is_public private_trackers cfg picks.1 picks.0

  mem-final_torrents :
      {t : TorrentRecord}
      → Memᴰ t final
      → Memᴰ t torrents
        × (contains (casefold t.tracker) cfg.trackers ≡ true)
        × (carries_ignored_tag t.tags (ignore_tag_set cfg.ignore_tags) ≡ false)
  unfolding final_torrents
  mem-final_torrents m =
      let (n, h) = mem-select _ _ m in let (o, k) = mem-select _ torrents n in (o, h, ground arith)

  -- Every url that `build` offers is that of a torrent of the entry, of its group, which carries
  -- no ignored tag and is of an allowed tracker; it is not flagged yet, and public if it is a
  -- fallback.
  pub build-IsBuilt :
      (rg url : Text) (u : UrlItem)
      → url_at rg url (build tracker_is_public private_trackers cfg torrents) ≡ some u
      → IsBuilt tracker_is_public private_trackers cfg torrents rg url u
  unfolding url_item item
  build-IsBuilt rg url u e =
      let a : IsAugmented tracker_is_public private_trackers cfg final (narrow_candidates cfg final)
          picks.0 picks.1 =
        augment-IsAugmented tracker_is_public private_trackers cfg final
          (narrow_candidates cfg final) in
      let (t, m, g, k, i) = built-Drawn.items rg url u (mem_of_get url _ e) in
      let listed : Memᴰ t final =
        elim (picked_lem tracker_is_public private_trackers cfg final _ _ _ a t m) [
          | inl n ↦ mem-narrow_candidates cfg final n
          | inr n ↦ (a.offered t n).0
        ] in
      let (o, tr, tg) = mem-final_torrents listed in
      record {
        torrent = t;
        listed = o;
        tracker = tr;
        tags = tg;
        group = g;
        key = k;
        fresh = ap (λ (x : UrlItem). x.download) i;
        own_url = ap (λ (x : UrlItem). x.url) i ∙ k;
        size = ap (λ (x : UrlItem). x.size) i;
        is_public = ap (λ (x : UrlItem). x.is_public) i;
        fallback = elim (Bool-cases u.is_fallback) [
          | inl h ↦
              let p : u.is_public ≡ true =
                ap (λ (x : UrlItem). x.is_public) i
                ∙ fallback_is_public tracker_is_public private_trackers cfg final _ _ _ a t m
                    (sym (ap (λ (x : UrlItem). x.is_fallback) i) ∙ h) in
              ground (arith, h, p)
          | inr h ↦ ground (arith, h)
        ];
      }
