-- ===== src/Imports/Names.antt =====
-- The folding of file names. `unicodedata.normalize("NFC", ...)` is the parameter `nfc`.
use pearlarr.Base.{ℕ, Bool, List, [], ◌∷◌, ◌++◌, ◌==◌, if◌then◌else◌, nat_eq, map}
use pearlarr.Text.{Text, strip, casefold, strip_right}
use pearlarr.Probe.Commands.{fold_path_separators}

abbrev pub is_slash : ℕ → Bool
is_slash c = c == 47

-- `posixpath.basename`: what stands behind the last separator
basename_from : Text → Text → Text
basename_from leaf [] = leaf
basename_from leaf (c ∷ s) = basename_from (if is_slash c then [] else leaf ++ c ∷ []) s

unfoldable pub path_leaf : Text → Text
unfolding basename_from
path_leaf name = basename_from [] (strip_right is_slash (fold_path_separators name))

module _ (nfc : Text → Text) where
  unfoldable pub normalize_basename : Text → Text
  normalize_basename name = nfc (casefold (strip (nfc name)))

  unfoldable pub normalized_leaf : Text → Text
  unfolding normalize_basename
  normalized_leaf name = normalize_basename (path_leaf name)

  -- the order of first occurrences, as `dict.fromkeys` keeps it
  unfoldable pub leaves : List Text → List Text
  leaves names = map normalized_leaf names
