-- ===== src/Planner/Reduce/Refines.antt =====
-- How one dictionary refines another: the relation that the parts of the reduction are read by.
use mathlib.Core.Path.{subst}
use pearlarr.Base.{
  some_inj, contains, contains-keys, Option-cases, unique, nat_eq, list_eq, ◌&&◌, keys-modify,
  keys-map_values, modify, Bool, true, false, ◌≡◌, refl, sym, ap, ◌∙◌, ◌⊎◌, inl, inr, Option, none,
  some, arith, ◌==◌, if◌then◌else◌, keys, map_values, Bool-cases, nat_eq, list_eq, eq_of_==,
}
use mathlib.Core.Option
use pearlarr.Text.{Text}
use pearlarr.Releases.{UrlItem, SeadexDict, flag, unflag, modify_urls, modify_url, urls_of, url_at}
use pearlarr.Releases.Flags.{
  IsSound, keys-modify_urls, keys-urls_of-modify_urls, url_at-map_urls, url_at-modify_url,
}

-- Within every group a url has one entry, as in any Python dict.
abbrev pub HasUrlKeys : SeadexDict → Type 0
HasUrlKeys d = (rg : Text) → unique (keys (urls_of rg d)) ≡ true

-- A url that the reduction may flag: it was flagged, or it is public and no fallback.
abbrev pub MayFlag : UrlItem → Type 0
MayFlag u = (u.download ≡ true) ⊎ ((u.is_public ≡ true) × (u.is_fallback ≡ false))

pub record ItemRefines (u u' : UrlItem) : Type 0 where
  pub same : unflag u' ≡ unflag u
  pub newly : u'.download ≡ true → MayFlag u
  pub sound : IsSound u → IsSound u'

pub ItemRefines-refl : (u : UrlItem) → ItemRefines u u
ItemRefines-refl u = record { same = refl; newly = λ h. inl h; sound = λ h. h }

pub MayFlag-public :
    {u v : UrlItem} → ItemRefines u v → v.is_public ≡ true → v.is_fallback ≡ false → MayFlag u
unfolding unflag
MayFlag-public a p f = inr (
  sym (ap (λ (x : UrlItem). x.is_public) a.same) ∙ p,
  sym (ap (λ (x : UrlItem). x.is_fallback) a.same) ∙ f,
)

pub ItemRefines-trans : {u v w : UrlItem} → ItemRefines u v → ItemRefines v w → ItemRefines u w
unfolding unflag
ItemRefines-trans {u} {v} {w} a b = record {
  same = b.same ∙ a.same;
  newly = λ h. elim (b.newly h) [ inl old ↦ a.newly old | inr (p, f) ↦ MayFlag-public a p f ];
  sound = λ h. b.sound (a.sound h);
}

pub ItemRefines-unflag : {u v : UrlItem} → ItemRefines u v → ItemRefines u (unflag v)
unfolding unflag
ItemRefines-unflag a = record {
  same = a.same;
  newly = λ h. absurd (cc);
  sound = λ h k. absurd (cc);
}

pub ItemRefines-flag : {u v : UrlItem} → ItemRefines u v → MayFlag u → ItemRefines u (flag false v)
unfolding flag unflag
ItemRefines-flag a m = record { same = a.same; newly = λ _. m; sound = λ _ _. refl }

-- `d'` has the groups and urls of `d`, each item refined.
pub record Refines (d d' : SeadexDict) : Type 0 where
  pub group_keys : keys d' ≡ keys d
  pub url_keys : (rg : Text) → keys (urls_of rg d') ≡ keys (urls_of rg d)
  pub items :
      (rg url : Text) (u' : UrlItem)
      → url_at rg url d' ≡ some u'
      → (u : UrlItem) × (url_at rg url d ≡ some u) × ItemRefines u u'

pub Refines-refl : (d : SeadexDict) → Refines d d
Refines-refl d = record {
  group_keys = refl;
  url_keys = λ rg. refl;
  items = λ rg url u h. (u, h, ItemRefines-refl u);
}

pub Refines-trans : {a b c : SeadexDict} → Refines a b → Refines b c → Refines a c
Refines-trans f g = record {
  group_keys = g.group_keys ∙ f.group_keys;
  url_keys = λ rg. g.url_keys rg ∙ f.url_keys rg;
  items = λ rg url u' h.
      let (v, e, s) = g.items rg url u' h in
      let (u, e', r) = f.items rg url v e in (u, e', ItemRefines-trans r s);
}

-- One way to refine further: change the items that a test picks.
module _ {d₀ d : SeadexDict} (r : Refines d₀ d) (d' : SeadexDict) (hit : Text → Text → Bool)
    (f : UrlItem → UrlItem) where
  pub Refines-change :
      keys d' ≡ keys d
      → ((rg : Text) → keys (urls_of rg d') ≡ keys (urls_of rg d))
      → ((rg url : Text)
          → url_at rg url d'
            ≡ (if hit rg url then Option.map f (url_at rg url d) else url_at rg url d))
      → ((rg url : Text) (u v : UrlItem)
          → hit rg url ≡ true
          → url_at rg url d₀ ≡ some u
          → url_at rg url d ≡ some v
          → ItemRefines u v
          → ItemRefines u (f v))
      → Refines d₀ d'
  Refines-change group_keys url_keys changed step = record {
    group_keys = group_keys ∙ r.group_keys;
    url_keys = λ rg. url_keys rg ∙ r.url_keys rg;
    items = items;
  }
    where
      read :
          (rg url : Text) (u' : UrlItem) (o : Option UrlItem)
          → url_at rg url d ≡ o
          → hit rg url ≡ true
          → Option.map f o ≡ some u'
          → (u : UrlItem) × (url_at rg url d₀ ≡ some u) × ItemRefines u u'
      read rg url u' none e t h = absurd (cc)
      read rg url u' (some v) e t h =
          let (u, eu, ri) = r.items rg url v e in
          let last : f v ≡ u' = ground arith in (u, eu, rw (← last) (step rg url u v t eu e ri))

      items :
          (rg url : Text) (u' : UrlItem)
          → url_at rg url d' ≡ some u'
          → (u : UrlItem) × (url_at rg url d₀ ≡ some u) × ItemRefines u u'
      items rg url u' h = elim (Bool-cases (hit rg url)) [
        | inl t ↦ read rg url u' (url_at rg url d) refl t (rw t at (sym (changed rg url)) ∙ h)
        | inr t ↦ r.items rg url u' (rw t at (sym (changed rg url)) ∙ h)
      ]

module _ {d₀ d : SeadexDict} (r : Refines d₀ d) (rg : Text) (f : UrlItem → UrlItem) where
  -- A change of every url of one group.
  pub Refines-map_urls :
      ((url : Text) (u v : UrlItem)
        → url_at rg url d₀ ≡ some u
        → url_at rg url d ≡ some v
        → ItemRefines u v
        → ItemRefines u (f v))
      → Refines d₀ (modify_urls rg (map_values f) d)
  Refines-map_urls step =
      Refines-change r _ (λ i _. rg == i) f (keys-modify_urls rg (map_values f) d)
        (λ i. keys-urls_of-modify_urls rg (map_values f) i d refl (keys-map_values f))
        (λ i url. url_at-map_urls rg f i url d) λ i url u v t. rw (← eq_of_== rg i t) (step url u v)

  -- A change of one url.
  pub Refines-modify_url :
      (url : Text)
      → ((u v : UrlItem)
          → url_at rg url d₀ ≡ some u
          → url_at rg url d ≡ some v
          → ItemRefines u v
          → ItemRefines u (f v))
      → Refines d₀ (modify_url rg url f d)
  unfolding modify_url
  Refines-modify_url url step =
      Refines-change r _ (λ i j. (rg == i) && (url == j)) f (keys-modify_urls rg (modify url f) d)
        (λ i. keys-urls_of-modify_urls rg (modify url f) i d refl (keys-modify url f))
        (λ i j. url_at-modify_url rg url f i j d)
        λ i j u v t.
          let e : rg ≡ i = eq_of_== rg i (ground arith) in
          let e' : url ≡ j = eq_of_== url j (ground arith) in rw (← e, ← e') (step u v)

-- Every item is still there, refined.
pub Refines-forward :
    {d d' : SeadexDict}
    → Refines d d'
    → (rg url : Text) {u : UrlItem} → url_at rg url d ≡ some u
    → (v : UrlItem) × (url_at rg url d' ≡ some v) × ItemRefines u v
Refines-forward {d} {d'} r rg url {u} e = elim (Option-cases (url_at rg url d')) [
  | inl n ↦
      let gone =
        sym (contains-keys url (urls_of rg d'))
        ∙ ap (contains url) (r.url_keys rg)
        ∙ contains-keys url (urls_of rg d) in
      absurd (cc gone)
  | inr (v, f) ↦
      let (u', e', i) = r.items rg url v f in
      (v, f, subst (λ x. ItemRefines x v) (some_inj (sym e' ∙ e)) i)
]
