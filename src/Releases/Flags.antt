-- ===== src/Releases/Flags.antt =====
-- `flag` and `unflag`, and the reading of an item after a change of the dictionary.
use pearlarr.Base.{
  map_values, get-map_values, keys, keys-modify, Bool, true, ◌≡◌, refl, ◌&&◌, [], arith, ◌==◌,
  if◌then◌else◌, Dict, nat_eq, list_eq, get-modify, modify,
}
use mathlib.Core.Option
use pearlarr.Text.{Text}
use pearlarr.Releases.{
  UrlItem, SeadexDict, ReleaseGroup, flag, unflag, modify_urls, modify_url, urls_of, url_at,
}

-- The item invariant: an upgrade describes a grab.
abbrev pub IsSound : UrlItem → Type 0
IsSound u = u.upgrade ≡ true → u.download ≡ true

pub flag-IsSound : (upgrade : Bool) (u : UrlItem) → IsSound (flag upgrade u)
unfolding flag
flag-IsSound upgrade u h = refl

pub unflag-IsSound : (u : UrlItem) → IsSound (unflag u)
unfolding unflag
unflag-IsSound u h = ground arith

-- Reading an item after a change of one group's urls.
pub urls_of-modify_urls :
    (rg : Text) (f : Dict Text UrlItem → Dict Text UrlItem) (rg' : Text) (d : SeadexDict)
    → f [] ≡ []
    → urls_of rg' (modify_urls rg f d) ≡ (if rg == rg' then f (urls_of rg' d) else urls_of rg' d)
unfolding modify_urls
urls_of-modify_urls rg f rg' d e =
    ground (arith, e, get-modify rg' rg (λ (g : ReleaseGroup). record g { urls = f g.urls }) d)

pub url_at-modify_url :
    (rg url : Text) (f : UrlItem → UrlItem) (rg' url' : Text) (d : SeadexDict)
    → url_at rg' url' (modify_url rg url f d) ≡ (
        if (rg == rg') && (url == url')
        then Option.map f (url_at rg' url' d)
        else url_at rg' url' d)
unfolding modify_url
url_at-modify_url rg url f rg' url' d =
    rw (urls_of-modify_urls rg (modify url f) rg' d refl)
      (ground (arith, get-modify url' url f (urls_of rg' d)))

-- Every url of one group changed in place.
pub url_at-map_urls :
    (rg : Text) (f : UrlItem → UrlItem) (rg' url' : Text) (d : SeadexDict)
    → url_at rg' url' (modify_urls rg (map_values f) d)
      ≡ (if rg == rg' then Option.map f (url_at rg' url' d) else url_at rg' url' d)
url_at-map_urls rg f rg' url' d =
    rw (urls_of-modify_urls rg (map_values f) rg' d refl)
      (ground (arith, get-map_values url' f (urls_of rg' d)))

pub keys-modify_urls :
    (rg : Text) (f : Dict Text UrlItem → Dict Text UrlItem) (d : SeadexDict)
    → keys (modify_urls rg f d) ≡ keys d
unfolding modify_urls
keys-modify_urls rg f d = keys-modify rg (λ (g : ReleaseGroup). record g { urls = f g.urls }) d

pub keys-urls_of-modify_urls :
    (rg : Text) (f : Dict Text UrlItem → Dict Text UrlItem) (rg' : Text) (d : SeadexDict)
    → f [] ≡ []
    → ((urls : Dict Text UrlItem) → keys (f urls) ≡ keys urls)
    → keys (urls_of rg' (modify_urls rg f d)) ≡ keys (urls_of rg' d)
keys-urls_of-modify_urls rg f rg' d e same =
    rw (urls_of-modify_urls rg f rg' d e) (ground (arith, same (urls_of rg' d)))
