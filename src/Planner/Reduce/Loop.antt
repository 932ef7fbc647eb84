-- ===== src/Planner/Reduce/Loop.antt =====
-- The loop of `reduce_overlapping_downloads` over the same-files sets.

use pearlarr.Base.{
  Bool, true, false, not, ◌&&◌, ◌≡◌, ap, sym, ◌∙◌, inl, inr, some, List, [], ◌∷◌, Memᴰ, arith,
  Bool-cases, get, all, all-mem, contains, contains_of_mem, mem_of_contains, nat_eq, list_eq,
  option_eq, pair_eq, fold,
}
use pearlarr.Text.{Text}
use pearlarr.Releases.{UrlItem, SeadexDict, url_at}
use pearlarr.Planner.Types.{PrivateOnlySkips}
use pearlarr.Planner.Coverage.{ParsedKey}
use pearlarr.Planner.Reduce.{survivor_keys, reduce_step}
use pearlarr.Planner.Reduce.Refines.{HasUrlKeys}
use pearlarr.Planner.Reduce.Safety.{reduce_step-Refines, HasUrlKeys-Refines}
use pearlarr.Planner.Reduce.Survivors.{Carries}
use pearlarr.Planner.Reduce.Frame.{reduce_step-Frame, survivor_keys-cong}
use pearlarr.Planner.Reduce.Lossless.{reduce_step-lossless}

-- Two sets without a common name, and a list of sets of which no two have one.
abbrev pub apart : List Text → List Text → Bool
apart a b = all (λ x. not (contains x b)) a

abbrev pub all_apart : List (List Text) → Bool
all_apart [] = true
all_apart (g ∷ gs) = all (apart g) gs && all_apart gs

apart-sym :
    (a b : List Text) (x : Text) → apart a b ≡ true → contains x b ≡ true → contains x a ≡ false
apart-sym a b x h m = elim (Bool-cases (contains x a)) [
  | inl t ↦
      let n = all-mem (λ y. not (contains y b)) a (mem_of_contains x a t) h in absurd (cc (n, m))
  | inr t ↦ t
]

abbrev pub Round : Type 0
Round = SeadexDict × PrivateOnlySkips

-- Sets apart from this one leave its survivors.
kept_after :
    (names : List Text) (key : ParsedKey) (gs : List (List Text)) (st : Round)
    → all (apart names) gs ≡ true
    → contains key (survivor_keys names st.0) ≡ true
    → contains key (survivor_keys names (fold reduce_step st gs).0) ≡ true
kept_after names key [] st h k = k
kept_after names key (g ∷ gs) st h k =
    let one : apart names g ≡ true = ground arith in
    kept_after names key gs (reduce_step st g) (ground arith) (
      ap (contains key) (
        survivor_keys-cong names st.0 (reduce_step st g).0 (λ rg m.
          let out = all-mem (λ y. not (contains y g)) names m one in
          reduce_step-Frame g rg st.0 st.1 (ground (arith, out))))
      ∙ k)

pub loop-lossless :
    (groups : List (List Text)) (st : Round) (names : List Text) (rg url : Text) (u : UrlItem)
    (key : ParsedKey)
    → all_apart groups ≡ true
    → HasUrlKeys st.0
    → Memᴰ names groups
    → Memᴰ rg names
    → url_at rg url st.0 ≡ some u
    → Carries u key
    → contains key (survivor_keys names (fold reduce_step st groups).0) ≡ true
loop-lossless [] st names rg url u key a h n m e c = elim n [ ]
loop-lossless (g ∷ gs) st names rg url u key a h (Memᴰ.head same) m e c =
    kept_after names key gs (reduce_step st g) (ap (λ l. all (apart l) gs) same ∙ ground arith) (
      ap (λ l. contains key (survivor_keys names (reduce_step st l).0)) (sym same)
      ∙ reduce_step-lossless st.0 st.1 names rg url u key h m e c)
loop-lossless (g ∷ gs) st names rg url u key a h (Memᴰ.tail n) m e c =
    let one : apart g names ≡ true = all-mem (apart g) gs n (ground arith) in
    let out : contains rg g ≡ false = apart-sym g names rg one (contains_of_mem names m) in
    loop-lossless gs (reduce_step st g) names rg url u key (ground arith)
      (HasUrlKeys-Refines (reduce_step-Refines st.0 st.1 g h) h) n m
      (ap (get url) (reduce_step-Frame g rg st.0 st.1 out) ∙ e) c
