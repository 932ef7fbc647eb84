-- ===== src/Planner/Match/Verdicts/Cover.antt =====
-- The sizes and the files that `_group_verdicts` gathers under a name.
use pearlarr.Base.{
  ℕ, Eq, Bool, true, false, ◌&&◌, ◌||◌, Option, none, some, List, [], ◌∷◌, ◌++◌, ◌≡◌, refl, sym, ap,
  ◌∙◌, inl, inr, ◌==◌, eq_of_==, ==_refl, nat_eq, option_eq, list_eq, Dict, get, get_else,
  set_default, modify, values, get-modify, get-set_default, get-modify-set_default, any, select,
  map, fold, is_some, if◌then◌else◌, Bool-cases, Option-cases, arith,
}
use mathlib.Core.List.{append-nil, append_assoc}
use pearlarr.Text.{Text, normalize_rg}
use pearlarr.Releases.{UrlItem, ReleaseGroup, SeadexDict}
use pearlarr.Planner.Ownership.{EpisodeIdentity}
use pearlarr.Planner.Match.{MatchContext}
use pearlarr.Planner.Match.Verdicts.{
  Cover, listed_sizes, cover_group, Attributed, attribute, tag_entry, attributed,
}

-- a group whose normal name is the given one, with a url whose sizes pass
abbrev pub lists : (List ℕ → Bool) → Option Text → Text × ReleaseGroup → Bool
lists good norm (rg, g) =
    normalize_rg (some rg) == norm && any (λ u. good (listed_sizes u)) (values g.urls)

-- the files on disk that a group answers for: by the identities of the episodes, else by tag
abbrev pub tagged_files : Option Text → Dict Text (List ℕ) → List (Option ℕ)
tagged_files none sizes = []
tagged_files (some name) sizes = map some (get_else name [] sizes)

abbrev pub files_on_disk : MatchContext → Option Text → List (Option ℕ)
files_on_disk ctx norm =
    if ctx.has_ep_list
    then map (λ (i : EpisodeIdentity). i.size)
        (select (λ i. norm == i.group) (values ctx.episode_identities))
    else tagged_files norm ctx.arr_sizes_by_norm

-- the list of a key, after more was put to that of another
module _ {K V : Type 0} ⦃e : Eq K⦄ where
  get_else-modify :
      (i k : K) (more : List V) (d : Dict K (List V))
      → is_some (get k d) ≡ true
      → get_else i [] (modify k (λ l. l ++ more) d)
        ≡ (if k == i then get_else i [] d ++ more else get_else i [] d)
  get_else-modify i k more d h = elim (Bool-cases (k == i)) [
    | inl t ↦ elim (Option-cases (get i d)) [
      | inl n ↦ absurd (cc (sym h ∙ ap (λ j. is_some (get j d)) (eq_of_== k i t) ∙ ap is_some n))
      | inr (l, f) ↦ rw (get_else, get-modify i k (λ l. l ++ more) d, t, f) refl
    ]
    | inr t ↦ rw (get_else, get-modify i k (λ l. l ++ more) d, t) refl
  ]

  get_else-set_default :
      (i k : K) (d : Dict K (List V)) → get_else i [] (set_default k [] d) ≡ get_else i [] d
  get_else-set_default i k d = elim (Option-cases (get i d)) [
    | inl n ↦ elim (Bool-cases (i == k)) [
      | inl t ↦ rw (get_else, get-set_default i k [] d, n, t) refl
      | inr t ↦ rw (get_else, get-set_default i k [] d, n, t) refl
    ]
    | inr (l, f) ↦ elim (Bool-cases (i == k)) [
      | inl t ↦ rw (get_else, get-set_default i k [] d, f, t) refl
      | inr t ↦ rw (get_else, get-set_default i k [] d, f, t) refl
    ]
  ]

  still_set :
      (k : K) (more : List V) (d : Dict K (List V))
      → is_some (get k d) ≡ true
      → is_some (get k (modify k (λ l. l ++ more) d)) ≡ true
  still_set k more d h = elim (Option-cases (get k d)) [
    | inl n ↦ absurd (cc (sym h ∙ ap is_some n))
    | inr (l, f) ↦ rw (get-modify k k (λ l. l ++ more) d, ==_refl k, f) refl
  ]

  now_set : (k : K) (d : Dict K (List V)) → is_some (get k (set_default k [] d)) ≡ true
  now_set k d = elim (Option-cases (get k d)) [
    | inl n ↦ rw (get-set_default k k [] d, n, ==_refl k) refl
    | inr (l, f) ↦ rw (get-set_default k k [] d, f, ==_refl k) refl
  ]

-- a test that a list passes when a part of it does
module _ (good : List ℕ → Bool) (nothing : good [] ≡ false)
    (parts : (xs ys : List ℕ) → good (xs ++ ys) ≡ (good xs || good ys)) where
  good-more :
      (t : Bool) (l more : List ℕ)
      → good (if t then l ++ more else l) ≡ (good l || (t && good more))
  good-more true l more = parts l more
  good-more false l more = ground arith

  good-urls :
      {K : Type 0} ⦃e : Eq K⦄ (norm key : K) (us : List UrlItem) (cover : Dict K (List ℕ))
      → is_some (get key cover) ≡ true
      → good (get_else norm [] (fold (λ c u. modify key (λ l. l ++ listed_sizes u) c) cover us))
        ≡ (good (get_else norm [] cover) || (key == norm && any (λ u. good (listed_sizes u)) us))
  good-urls norm key [] cover h = ground arith
  good-urls norm key (u ∷ us) cover h =
      let more = listed_sizes u in
      good-urls norm key us _ (still_set key more cover h)
      ∙ rw
          (
            get_else-modify norm key more cover h,
            good-more (key == norm) (get_else norm [] cover) more,
          )
          (ground arith)

  good-cover_group :
      (norm : Option Text) (entry : Text × ReleaseGroup) (cover : Cover)
      → good (get_else norm [] (cover_group cover entry))
        ≡ (good (get_else norm [] cover) || lists good norm entry)
  unfolding cover_group
  good-cover_group norm (rg, g) cover =
      let key = normalize_rg (some rg) in
      good-urls norm key (values g.urls) (set_default key [] cover) (now_set key cover)
      ∙ ap (λ l. good l || (key == norm && any (λ u. good (listed_sizes u)) (values g.urls)))
          (get_else-set_default norm key cover)

  good-cover :
      (norm : Option Text) (d : SeadexDict) (cover : Cover)
      → good (get_else norm [] (fold cover_group cover d))
        ≡ (good (get_else norm [] cover) || any (lists good norm) d)
  good-cover norm [] cover = ground arith
  good-cover norm (entry ∷ d) cover =
      ground (arith, good-cover norm d (cover_group cover entry), good-cover_group norm entry cover)

  pub good-listed :
      (norm : Option Text) (d : SeadexDict)
      → good (get_else norm [] (fold cover_group [] d)) ≡ any (lists good norm) d
  good-listed norm d = good-cover norm d [] ∙ ground (arith, nothing)

get_else-added :
    (norm key : Option Text) (size : Option ℕ) (files : Attributed)
    → get_else norm [] (modify key (λ l. l ++ size ∷ []) (set_default key [] files))
      ≡ (if norm == key then get_else norm [] files ++ size ∷ [] else get_else norm [] files)
get_else-added norm key size files = elim (Bool-cases (norm == key)) [
  | inl t ↦ rw (get_else, get-modify-set_default norm key (λ l. l ++ size ∷ []) [] files, t) refl
  | inr t ↦ rw (get_else, get-modify-set_default norm key (λ l. l ++ size ∷ []) [] files, t) refl
]

get_else-attribute :
    (norm : Option Text) (is : List EpisodeIdentity) (files : Attributed)
    → get_else norm [] (fold attribute files is)
      ≡ get_else norm [] files
        ++ map (λ (i : EpisodeIdentity). i.size) (select (λ i. norm == i.group) is)
unfolding attribute
get_else-attribute norm [] files = sym (append-nil (get_else norm [] files))
get_else-attribute norm (i ∷ is) files =
    get_else-attribute norm is (attribute files i) ∙ elim (Bool-cases (norm == i.group)) [
      | inl t ↦
          rw (get_else-added norm i.group i.size files, t)
            (append_assoc (get_else norm [] files) (i.size ∷ []) _)
      | inr t ↦ rw (get_else-added norm i.group i.size files, t) refl
    ]

get_else-tag_entry :
    (norm : Option Text) (sizes : Dict Text (List ℕ))
    → get_else norm [] (map tag_entry sizes) ≡ tagged_files norm sizes
unfolding tag_entry
get_else-tag_entry none [] = refl
get_else-tag_entry none ((name, l) ∷ sizes) = get_else-tag_entry none sizes
get_else-tag_entry (some x) [] = refl
get_else-tag_entry (some x) ((name, l) ∷ sizes) = elim (Bool-cases (x == name)) [
  | inl t ↦ rw (get_else, t) refl
  | inr t ↦ rw (get_else, t) (get_else-tag_entry (some x) sizes)
]

pub get_else-attributed :
    (ctx : MatchContext) (norm : Option Text)
    → get_else norm [] (attributed ctx) ≡ files_on_disk ctx norm
unfolding attributed
get_else-attributed ctx norm = elim (Bool-cases ctx.has_ep_list) [
  | inl t ↦ rw t (get_else-attribute norm (values ctx.episode_identities) [])
  | inr t ↦ rw t (get_else-tag_entry norm ctx.arr_sizes_by_norm)
]
