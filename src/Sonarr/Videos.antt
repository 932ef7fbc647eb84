-- ===== src/Sonarr/Videos.antt =====
-- pearlarr/video_files.py: which names could be an episode.
use Prim.Native.String.{String}
use pearlarr.Base.{
  ℕ, suc, Bool, false, not, ◌&&◌, ◌||◌, List, [], ◌∷◌, ◌==◌, if◌then◌else◌, any, contains, map,
  nat_eq, list_eq,
}
use pearlarr.Text.{Text, text, lower}
use pearlarr.Probe.Commands.{starts_with}
use pearlarr.Imports.Names.{path_leaf}

-- `part in s`
abbrev pub is_infix : Text → Text → Bool
is_infix part [] = starts_with part []
is_infix part (c ∷ s) = starts_with part (c ∷ s) || is_infix part s

torrent_filenames_to_skip : List Text
torrent_filenames_to_skip =
    text "NCED"
    ∷ text "NCOP"
    ∷ text "Creditless Ending"
    ∷ text "Creditless Opening"
    ∷ text "Creditless ED"
    ∷ text "Creditless OP"
    ∷ []

non_video_extensions : List Text
non_video_extensions = map {A = String} {B = Text} text (
    ".ass" ∷ ".srt" ∷ ".ssa" ∷ ".sub" ∷ ".idx" ∷ ".sup" ∷ ".vtt" ∷ ".mks" ∷ ".nfo" ∷ ".txt" ∷ ".md"
    ∷ ".sfv" ∷ ".xml" ∷ ".json" ∷ ".jpg" ∷ ".jpeg" ∷ ".png" ∷ ".bmp" ∷ ".gif" ∷ ".webp" ∷ ".tif"
    ∷ ".ttf" ∷ ".otf" ∷ ".woff" ∷ ".woff2" ∷ ".torrent" ∷ ".url" ∷ ".rar" ∷ ".zip" ∷ ".7z" ∷ ".cbz"
    ∷ ".cbr" ∷ ".cb7" ∷ ".pdf" ∷ ".epub" ∷ ".flac" ∷ ".mka" ∷ ".wav" ∷ ".aac" ∷ ".ac3" ∷ ".dts"
    ∷ ".dtshd" ∷ ".mp3" ∷ ".ogg" ∷ ".opus" ∷ ".m4a" ∷ ".wv" ∷ ".tak" ∷ ".ape" ∷ ".cue" ∷ ".log"
    ∷ ".m3u8" ∷ ".blake3" ∷ ".md5" ∷ ".sha2" ∷ ".sha256" ∷ [])

is_dot : ℕ → Bool
is_dot c = c == 46

-- the name past its leading dots
past_dots : Text → Text
unfolding is_dot
past_dots [] = []
past_dots (c ∷ s) = let rest = past_dots s in if is_dot c then rest else c ∷ s

-- the text from its last dot on, empty without one
from_last_dot : Text → Text
unfolding is_dot
from_last_dot [] = []
from_last_dot (c ∷ s) =
    let later = from_last_dot s in if is_dot c && not (any is_dot s) then c ∷ s else later

-- `os.path.splitext(name)[1]` of a name without separators
unfoldable pub extension : Text → Text
unfolding past_dots from_last_dot
extension name = from_last_dot (past_dots name)

unfoldable pub is_video_candidate : Text → Bool
unfolding torrent_filenames_to_skip non_video_extensions
is_video_candidate basename =
    if any (λ skip. is_infix skip basename) torrent_filenames_to_skip
    then false
    else not (contains (lower (extension basename)) non_video_extensions)

-- `video_file_entries`, from the given index on
unfoldable pub entries_from : ℕ → List Text → List (ℕ × Text)
entries_from idx [] = []
entries_from idx (name ∷ names) =
    let rest = entries_from (suc idx) names in
    if is_video_candidate (path_leaf name) then (idx, path_leaf name) ∷ rest else rest

unfoldable pub video_file_entries : List Text → List (ℕ × Text)
video_file_entries files = entries_from 0 files
