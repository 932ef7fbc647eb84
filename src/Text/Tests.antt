-- ===== src/Text/Tests.antt =====
-- A group name of two spaces.
use pearlarr.Base.{◌≡◌, refl, some, [], nat_eq}
use pearlarr.Text.{text, is_space, normalize_rg}
use pearlarr.Text.Laws.{normalize_rg_blank}

normalize_rg_blank_example : normalize_rg (some (text "  ")) ≡ some []
unfolding is_space
normalize_rg_blank_example = normalize_rg_blank (text "  ") refl refl
