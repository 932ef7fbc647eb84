-- ===== src/Text.antt =====
-- The `str` methods that the program calls, on texts as lists of code points, and the names built
-- on them: pearlarr/manual_import.py (`normalize_group`, `normalize_rg`) and the infohash spelling
-- of pearlarr/seadex_types.py. `strip` knows every white-space character of Unicode; `casefold` and
-- `lower` are those of the code points below U+0100 and leave the others as they are.
pub mod Laws
mod Tests
use Prim.Native.Char.{code}
use Prim.Native.String.{String}
use mathlib.Core.List.{reverse}
use pearlarr.Base.{
  ℕ, ◌+◌, Bool, true, false, ◌&&◌, ◌||◌, Option, none, some, List, [], ◌∷◌, map, leb, ◌==◌,
  if◌then◌else◌, contains, is_empty, nat_eq, ◌++◌,
}

abbrev pub Text : Type 0
Text = List ℕ

-- A literal as code points.
abbrev pub text : String → Text
text String.[] = []
text (String.◌∷◌ c s) = code c ∷ text s

pub is_space : ℕ → Bool
is_space c =
    (leb 9 c && leb c 13)
    || (leb 28 c && leb c 32)
    || (leb 8192 c && leb c 8202)
    || contains c (133 ∷ 160 ∷ 5760 ∷ 8232 ∷ 8233 ∷ 8239 ∷ 8287 ∷ 12288 ∷ [])

is_dash : ℕ → Bool
is_dash c = c == 45

drop_while : (ℕ → Bool) → Text → Text
drop_while p [] = []
drop_while p (c ∷ s) = let rest = drop_while p s in if p c then rest else c ∷ s

-- `s.strip(chars)`, the characters given by a test
strip_of : (ℕ → Bool) → Text → Text
unfolding drop_while
strip_of p s = reverse (drop_while p (reverse (drop_while p s)))

-- `s.rstrip(chars)`
unfoldable pub strip_right : (ℕ → Bool) → Text → Text
unfolding drop_while
strip_right p s = reverse (drop_while p (reverse s))

unfoldable pub strip : Text → Text
unfolding strip_of is_space
strip s = strip_of is_space s

-- letters of ASCII and of Latin-1 that have a lower-case partner 32 places on
is_upper : ℕ → Bool
is_upper c = (leb 65 c && leb c 90) || (leb 192 c && leb c 214) || (leb 216 c && leb c 222)

fold_char : ℕ → Text
unfolding is_upper
fold_char c =
    if is_upper c
    then (c + 32) ∷ []
    else if c == 181
    then 956 ∷ []
    else if c == 223
    then 115 ∷ 115 ∷ []
    else c ∷ []

unfoldable pub casefold : Text → Text
unfolding fold_char
casefold [] = []
casefold (c ∷ s) = fold_char c ++ casefold s

unfoldable pub lower : Text → Text
unfolding is_upper
lower s = map (λ c. if is_upper c then c + 32 else c) s

unfoldable pub normalize_group : Text → Text
unfolding strip casefold is_dash
normalize_group group = casefold (strip_of is_dash (strip group))

-- `if not name` holds for None and for the empty text.
unfoldable pub normalize_rg : Option Text → Option Text
unfolding normalize_group
normalize_rg none = none
normalize_rg (some name) = if is_empty name then none else some (normalize_group name)

unfoldable pub normalized_infohash : Option Text → Option Text
unfolding strip lower
normalized_infohash none = none
normalized_infohash (some raw) =
    let hash = lower (strip raw) in if is_empty hash then none else some hash
