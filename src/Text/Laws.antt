-- ===== src/Text/Laws.antt =====
-- What the normal forms of group names and infohashes are.
use pearlarr.Base.{ℕ, Bool, true, false, ◌≡◌, refl, some, [], ◌∷◌, arith, all, is_empty}
use pearlarr.Text.{Text, text, is_space, drop_while, normalize_rg, normalized_infohash}

drop_while-all : (p : ℕ → Bool) (s : Text) → all p s ≡ true → drop_while p s ≡ []
unfolding drop_while
drop_while-all p [] h = refl
drop_while-all p (c ∷ s) h = ground (arith, drop_while-all p s)

-- A group name of nothing but white space, which is no empty text, has the empty normal form and
-- not None: it is a group name like any other to the code that asks `normalize_rg(...) is None`.
pub normalize_rg_blank :
    (name : Text)
    → all is_space name ≡ true
    → is_empty name ≡ false
    → normalize_rg (some name) ≡ some []
unfolding normalize_rg
normalize_rg_blank name blank filled = rw (filled, drop_while-all is_space name blank)

dashes : normalize_rg (some (text " -Sub-Group- ")) ≡ some (text "sub-group")
unfolding normalize_rg
dashes = refl

hash : normalized_infohash (some (text " ABC1\n")) ≡ some (text "abc1")
unfolding normalized_infohash
hash = refl
