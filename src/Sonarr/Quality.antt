-- ===== src/Sonarr/Quality.antt =====
-- pearlarr/import_quality.py, with the quality types of pearlarr/seadex_types.py. An id or a resolution is
-- a natural number.
use pearlarr.Base.{
  ℕ, Bool, false, ◌&&◌, Option, none, some, List, [], ◌∷◌, ◌==◌, if◌then◌else◌, Dict, get, put,
  first, is_empty, is_some, fold, nat_eq, list_eq, option_eq,
}
use pearlarr.Text.{Text, text, casefold}

pub data QualitySource : Type 0 where
  television television_raw web web_rip dvd bluray bluray_raw : QualitySource

pub record SonarrQuality : Type 0 where
  pub id : Option ℕ
  pub name : Option Text
  pub source : Option Text
  pub resolution : Option ℕ

pub record Revision : Type 0 where
  pub version : Option ℕ
  pub real : Option ℕ
  pub is_repack : Option Bool

pub record QualityModel : Type 0 where
  pub quality : Option SonarrQuality
  pub revision : Option Revision

pub record QualityDefinition : Type 0 where
  pub quality : Option SonarrQuality

-- the words of the sources, folded; the unknown source has none
unfoldable pub source_by_folded : Dict Text QualitySource
source_by_folded =
    (text "television", television)
    ∷ (text "televisionraw", television_raw)
    ∷ (text "web", web)
    ∷ (text "webrip", web_rip)
    ∷ (text "dvd", dvd)
    ∷ (text "bluray", bluray)
    ∷ (text "blurayraw", bluray_raw)
    ∷ []

-- `QualitySource.parse`
unfoldable pub parse_source : Option Text → Option QualitySource
parse_source none = none
parse_source (some value) = if is_empty value then none else get (casefold value) source_by_folded

-- the place of a source in the list, to compare it
abbrev pub source_index : QualitySource → ℕ
source_index television = 0
source_index television_raw = 1
source_index web = 2
source_index web_rip = 3
source_index dvd = 4
source_index bluray = 5
source_index bluray_raw = 6

abbrev pub is_source : QualitySource → Option QualitySource → Bool
is_source source none = false
is_source source (some other) = source_index source == source_index other

pub record ParsedQuality : Type 0 where
  pub source : Option QualitySource
  pub resolution : Option ℕ

abbrev pub no_axes : ParsedQuality
no_axes = record { source = none; resolution = none }

-- a resolution above 0
abbrev pub positive : Option ℕ → Option ℕ
positive none = none
positive (some n) = if n == 0 then none else some n

unfoldable pub axes_of_quality : Option SonarrQuality → ParsedQuality
axes_of_quality none = no_axes
axes_of_quality (some quality) = record {
  source = parse_source quality.source;
  resolution = positive quality.resolution;
}

-- `quality_axes_from_model`
unfoldable pub quality_axes_from_model : Option QualityModel → ParsedQuality
quality_axes_from_model none = no_axes
quality_axes_from_model (some model) = axes_of_quality model.quality

-- the quality of a definition with this folded name
unfoldable pub is_named : Text → Option SonarrQuality → Bool
is_named target none = false
is_named target (some quality) = elim quality.name as (λ _. Bool) [
  | none ↦ false
  | some name ↦ casefold name == target
]

abbrev pub axes_of_definition : Option QualityDefinition → ParsedQuality
axes_of_definition none = no_axes
axes_of_definition (some d) = axes_of_quality d.quality

unfoldable pub quality_axes_from_name : Option Text → List QualityDefinition → ParsedQuality
quality_axes_from_name none defs = no_axes
quality_axes_from_name (some name) defs =
    if is_empty name
    then no_axes
    else axes_of_definition (first (λ d. is_named (casefold name) d.quality) defs)

-- whether a quality has the two axes
unfoldable pub has_axes : QualitySource → ℕ → Option SonarrQuality → Bool
has_axes source resolution none = false
has_axes source resolution (some quality) =
    (quality.resolution == some resolution) && is_source source (parse_source quality.source)

abbrev pub quality_of : Option QualityDefinition → Option SonarrQuality
quality_of none = none
quality_of (some d) = d.quality

-- `_find_definition`
unfoldable pub find_definition : QualitySource → ℕ → List QualityDefinition → Option SonarrQuality
find_definition source resolution defs =
    quality_of (first (λ d. has_axes source resolution d.quality) defs)

-- `_RAW_DOWNGRADE`
unfoldable pub raw_downgrade : QualitySource → Option QualitySource
raw_downgrade bluray_raw = some bluray
raw_downgrade television_raw = some television
raw_downgrade _ = none

abbrev pub fresh_revision : Revision
fresh_revision = record { version = some 1; real = some 0; is_repack = some false }

abbrev pub or_fresh : Option Revision → Revision
or_fresh none = fresh_revision
or_fresh (some revision) = revision

-- `_candidate_revision`
unfoldable pub candidate_revision : Option QualityModel → Revision
candidate_revision none = fresh_revision
candidate_revision (some model) = or_fresh model.revision

-- `a or b` on options, of sources and of resolutions
abbrev pub or_source : Option QualitySource → Option QualitySource → Option QualitySource
or_source none b = b
or_source (some a) b = some a

abbrev pub or_resolution : Option ℕ → Option ℕ → Option ℕ
or_resolution none b = b
or_resolution (some a) b = if a == 0 then b else some a

-- the base of a raw source at the resolution
unfoldable pub find_base : Option QualitySource → ℕ → List QualityDefinition → Option SonarrQuality
find_base none resolution defs = none
find_base (some base) resolution defs = find_definition base resolution defs

abbrev pub or_quality : Option SonarrQuality → Option SonarrQuality → Option SonarrQuality
or_quality none b = b
or_quality (some a) b = some a

-- the definition of the two axes, when both are determined
unfoldable pub defined_quality :
    Option QualitySource → Option ℕ → List QualityDefinition → Option SonarrQuality
defined_quality none resolution defs = none
defined_quality (some source) none defs = none
defined_quality (some source) (some resolution) defs =
    or_quality (find_definition source resolution defs)
      (find_base (raw_downgrade source) resolution defs)

abbrev pub unknown_quality : SonarrQuality
unknown_quality = record {
  id = some 0;
  name = some (text "Unknown");
  source = some (text "unknown");
  resolution = some 0;
}

-- the candidate's model, or the unknown quality
unfoldable pub fallback_model : Option QualityModel → QualityModel
fallback_model none = record { quality = some unknown_quality; revision = some fresh_revision }
fallback_model (some model) = if is_some model.quality then model else record {
  quality = some unknown_quality;
  revision = some (candidate_revision (some model));
}

unfoldable pub model_of : Option SonarrQuality → Option QualityModel → QualityModel
model_of none candidate = fallback_model candidate
model_of (some quality) candidate = record {
  quality = some quality;
  revision = some (candidate_revision candidate);
}

unfoldable pub resolve_quality :
    ParsedQuality
    → ParsedQuality
    → ParsedQuality
    → List QualityDefinition
    → Option QualityModel
    → QualityModel
resolve_quality sonarr ours default defs candidate =
    model_of
      (defined_quality (or_source sonarr.source (or_source ours.source default.source))
        (or_resolution sonarr.resolution (or_resolution ours.resolution default.resolution)) defs)
      candidate

unfoldable pub derive_languages : Bool → List Text → List Text → List Text
derive_languages is_dual_audio dual single = if is_dual_audio then dual else single

pub record Language : Type 0 where
  pub id : Option ℕ
  pub name : Option Text

-- `by_name`: a later definition of a name replaces an earlier one
unfoldable pub add_language : Dict Text Language → Language → Dict Text Language
add_language by_name l = elim l.name as (λ _. Dict Text Language) [
  | none ↦ by_name
  | some name ↦ put (casefold name) l by_name
]

abbrev pub cons_some {ℓ} : {A : Type ℓ} → Option A → List A → List A
cons_some none xs = xs
cons_some (some x) xs = x ∷ xs

unfoldable pub languages_named : Dict Text Language → List Text → List Language
languages_named by_name [] = []
languages_named by_name (name ∷ names) =
    cons_some (get (casefold name) by_name) (languages_named by_name names)

unfoldable pub resolve_language_objects : List Text → List Language → List Language
resolve_language_objects names lang_defs = languages_named (fold add_language [] lang_defs) names
