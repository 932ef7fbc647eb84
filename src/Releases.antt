-- ===== src/Releases.antt =====
-- pearlarr/seadex_types.py: the SeaDex release dictionary, the arr's episodes and files, and the
-- small functions over them. A `set` or `frozenset` is a list without regard to order, and a
-- SeaDex `Tracker` is its name.
pub mod Flags
pub mod Pairs
pub mod Index
mod Tests
use pearlarr.Base.{
  ℕ, Bool, true, false, ◌&&◌, ◌≡◌, refl, ◌↔◌, Option, none, some, List, [], ◌∷◌, ◌++◌, arith, Eq,
  ◌==◌, nat_eq, list_eq, option_eq, if◌then◌else◌, Dict, get, put, set_default, modify, contains,
  select, is_empty, not,
}
use pearlarr.Text.{Text, text, casefold}

pub record EpisodeRecord : Type 0 where
  pub season : Option ℕ
  pub episode : Option ℕ
  pub size : ℕ

pub record EpisodeKey : Type 0 where
  pub season : ℕ
  pub episode : ℕ

abbrev key_same : EpisodeKey → EpisodeKey → Bool
key_same a b = (a.season == b.season) && (a.episode == b.episode)

pub key_same_iff : (a b : EpisodeKey) → (key_same a b ≡ true) ↔ (a ≡ b)
key_same_iff a b = ground arith

instance abbrev pub key_eq : Eq EpisodeKey
key_eq = record { same = key_same; same_iff = key_same_iff }

abbrev pub sonarr_missing_key : ℕ
sonarr_missing_key = 999

abbrev key_part : Option ℕ → ℕ
key_part none = sonarr_missing_key
key_part (some n) = n

unfoldable pub season_episode_key : Option ℕ → Option ℕ → EpisodeKey
season_episode_key season episode = record { season = key_part season; episode = key_part episode }

pub data GrabHold : Type 0 where
  misnumbered input_unread title_refuted placed_elsewhere : GrabHold

unfoldable pub hold_hand_import : GrabHold → Bool
hold_hand_import misnumbered = true
hold_hand_import title_refuted = true
hold_hand_import _ = false

pub record ElsewhereCounts : Type 0 where
  pub elsewhere : ℕ
  pub unplaced : ℕ

pub record UrlItem : Type 0 where
  pub url : Text
  pub files : List Text
  pub size : List ℕ
  pub tracker : Text
  pub is_public : Bool
  pub is_dual_audio : Bool
  pub infohash : Option Text
  pub download : Bool
  pub is_fallback : Bool
  pub upgrade : Bool
  pub episodes : List EpisodeRecord
  pub hold : Option GrabHold
  pub hold_counts : ElsewhereCounts

unfoldable pub hand_import : UrlItem → Bool
unfolding hold_hand_import
hand_import u = elim u.hold [ none ↦ false | some h ↦ hold_hand_import h ]

-- `flag(upgrade=…)`: an upgrade that is set already stays.
unfoldable pub flag : Bool → UrlItem → UrlItem
flag upgrade u = record u { download = true; upgrade = if upgrade then true else u.upgrade }

unfoldable pub unflag : UrlItem → UrlItem
unflag u = record u { download = false; upgrade = false }

pub record ReleaseGroup : Type 0 where
  pub urls : Dict Text UrlItem
  pub tags : List Text
  pub all_episodes : Option (List EpisodeRecord)

abbrev pub SeadexDict : Type 0
SeadexDict = Dict Text ReleaseGroup

-- The urls of one group, each under its key. A change of an item of the dictionary, which the
-- program makes through a reference, is the change of the item at its group and key.
abbrev pub urls_of : Text → SeadexDict → Dict Text UrlItem
urls_of rg d = elim (get rg d) [ none ↦ [] | some g ↦ g.urls ]

abbrev pub url_at : Text → Text → SeadexDict → Option UrlItem
url_at rg url d = get url (urls_of rg d)

unfoldable pub modify_urls :
    Text → (Dict Text UrlItem → Dict Text UrlItem) → SeadexDict → SeadexDict
modify_urls rg f d = modify rg (λ g. record g { urls = f g.urls }) d

unfoldable pub modify_url : Text → Text → (UrlItem → UrlItem) → SeadexDict → SeadexDict
unfolding modify_urls
modify_url rg url f d = modify_urls rg (modify url f) d

pub record FlaggedUrl : Type 0 where
  pub group : Text
  pub url : Text
  pub item : UrlItem
  pub infohash : Text

flagged_of : Text → Dict Text UrlItem → List FlaggedUrl
flagged_of srg [] = []
flagged_of srg ((url, u) ∷ urls) =
    let rest = flagged_of srg urls in
    elim u.infohash [
      | none ↦ rest
      | some hash ↦
          if u.download && not (is_empty hash)
          then record { group = srg; url = url; item = u; infohash = hash } ∷ rest
          else rest
    ]

unfoldable pub flagged_urls : SeadexDict → List FlaggedUrl
unfolding flagged_of
flagged_urls [] = []
flagged_urls ((srg, g) ∷ d) = flagged_of srg g.urls ++ flagged_urls d

pub record EpisodeFile : Type 0 where
  pub release_group : Option Text
  pub size : Option ℕ

pub record SonarrEpisode : Type 0 where
  pub id : ℕ
  pub season_number : Option ℕ
  pub episode_number : Option ℕ
  pub absolute_episode_number : Option ℕ
  pub title : Text
  pub tvdb_id : Option ℕ
  pub episode_file_id : ℕ
  pub monitored : Bool
  pub episode_file : Option EpisodeFile

index_from : Dict EpisodeKey SonarrEpisode → List SonarrEpisode → Dict EpisodeKey SonarrEpisode
unfolding season_episode_key
index_from index [] = index
index_from index (ep ∷ eps) =
    index_from (set_default (season_episode_key ep.season_number ep.episode_number) ep index) eps

unfoldable pub index_episodes_by_key : List SonarrEpisode → Dict EpisodeKey SonarrEpisode
unfolding index_from
index_episodes_by_key eps = index_from [] eps

pub record ArrReleases : Type 0 where
  pub tagged : Dict Text (List ℕ)
  pub untagged : List ℕ

abbrev size_list : Option ℕ → List ℕ
size_list none = []
size_list (some n) = n ∷ []

abbrev pub size_or_zero : Option ℕ → ℕ
size_or_zero none = 0
size_or_zero (some n) = n

-- A file of no group, or of the empty one.
add_untagged : Bool → ArrReleases → EpisodeFile → ArrReleases
add_untagged keep_untagged r f =
    if keep_untagged then record r { untagged = r.untagged ++ size_or_zero f.size ∷ [] } else r

add_tagged : ArrReleases → Text → EpisodeFile → ArrReleases
add_tagged r group f = record r {
  tagged = modify group (λ l. l ++ size_list f.size) (set_default group [] r.tagged);
}

add_file : Bool → ArrReleases → EpisodeFile → ArrReleases
unfolding add_untagged add_tagged
add_file keep_untagged r f = elim f.release_group [
  | none ↦ add_untagged keep_untagged r f
  | some group ↦ if is_empty group then add_untagged keep_untagged r f else add_tagged r group f
]

files_from : Bool → ArrReleases → List EpisodeFile → ArrReleases
unfolding add_file
files_from keep_untagged r [] = r
files_from keep_untagged r (f ∷ fs) = files_from keep_untagged (add_file keep_untagged r f) fs

unfoldable pub from_files : Bool → List EpisodeFile → ArrReleases
unfolding files_from
from_files keep_untagged fs = files_from keep_untagged (record { tagged = []; untagged = [] }) fs

-- `unambiguous`
clashes {ℓ} : {V : Type ℓ} ⦃v : Eq V⦄ → Option V → V → Bool
clashes none x = false
clashes (some y) x = not (y == x)

module _ {ℓ κ} {K : Type ℓ} {V : Type κ} ⦃e : Eq K⦄ ⦃v : Eq V⦄ where
  scan_pairs : Dict K V → List K → List (K × V) → Dict K V × List K
  unfolding clashes
  scan_pairs values ambiguous [] = (values, ambiguous)
  scan_pairs values ambiguous ((k, x) ∷ ps) =
      scan_pairs (set_default k x values)
        (if clashes (get k values) x then k ∷ ambiguous else ambiguous) ps

  unfoldable pub unambiguous : List (K × V) → Dict K V
  unfolding scan_pairs
  unambiguous ps =
      let (values, ambiguous) = scan_pairs [] [] ps in
      select (λ p. not (contains p.0 ambiguous)) values

unfoldable pub ignore_tag_set : List Text → List Text
unfolding casefold
ignore_tag_set [] = []
ignore_tag_set (t ∷ ts) = casefold t ∷ ignore_tag_set ts

-- `carries_ignored_tag` of a torrent with these tags
unfoldable pub carries_ignored_tag : List Text → List Text → Bool
unfolding casefold
carries_ignored_tag [] ignore_tags = false
carries_ignored_tag (t ∷ ts) ignore_tags =
    if contains (casefold t) ignore_tags then true else carries_ignored_tag ts ignore_tags
