-- ===== src/Paths.antt =====
-- crates/cfapi/src/path.rs: paths under the root as text. `str::to_lowercase` (tables of Unicode) is
-- an argument.
pub mod Below
use elasticdms_desktop.Prelude.{
  ℕ, ◌+◌, Bool, true, false, not, ◌&&◌, ◌||◌, Option, none, some, List, [], ◌∷◌, ◌++◌, ltb, leb,
  ◌==◌, if◌then◌else◌, length,
}
use elasticdms_desktop.Text.{Text, codes, text_eq, strip_prefix, rsplit_once}
use elasticdms_desktop.Filename.{trim_start, trim_end}
use elasticdms_desktop.Checks.{utf16_len, ends_with}

-- `SEPARATOR`
abbrev pub separator : ℕ
separator = b'\\'

abbrev pub is_separator : ℕ → Bool
is_separator c = c == separator

-- `LONG_PREFIX`
abbrev pub long_prefix : Text
long_prefix = codes "\\\\?\\"

-- `LONG_PATH_FROM`
abbrev pub long_path_from : ℕ
long_path_from = 248

abbrev slash_to_separator : ℕ → ℕ
slash_to_separator c = if c == b'/' then separator else c

-- The `for` loop of `unify`; `out` is what was pushed
unfoldable pub unify_from : Text → Text → Text
unify_from out [] = out
unify_from out (c ∷ path) =
    let z = slash_to_separator c in
    unify_from (if z == separator && ends_with separator out then out else out ++ z ∷ []) path

-- `unify`
unfoldable pub unify : Text → Text
unfolding unify_from trim_end
unify path = trim_end is_separator (unify_from [] path)

-- `for_win32`
unfoldable pub for_win32 : Text → Text
for_win32 full = elim (strip_prefix (separator ∷ separator ∷ []) full) [
  | some _ ↦ full
  | none ↦ if ltb (utf16_len full) long_path_from then full else long_prefix ++ full
]

-- `from_callback`
unfoldable pub from_callback : Text → Text → Text
unfolding unify trim_start trim_end
from_callback volume normalized =
    let drive = trim_end is_separator volume in
    let rest = trim_start is_separator (unify normalized) in
    if length drive == 0
    then unify normalized
    else if length rest == 0
    then drive ++ separator ∷ []
    else drive ++ separator ∷ rest

-- `parent_and_name`
abbrev parts_or : Text → Option (Text × Text) → Text × Text
parts_or relative none = ([], relative)
parts_or relative (some p) = p

unfoldable pub parent_and_name : Text → Text × Text
parent_and_name relative = parts_or relative (rsplit_once separator relative)

-- `PathKey::from_relative`
unfoldable pub key_from_relative : (Text → Text) → Text → Text
unfolding unify trim_start
key_from_relative lower relative = lower (trim_start is_separator (unify relative))

abbrev pub starts_with_separator : Option Text → Bool
starts_with_separator none = false
starts_with_separator (some []) = false
starts_with_separator (some (c ∷ _)) = c == separator

-- `PathKey::is_below`
unfoldable pub is_below : Text → Text → Bool
is_below key top =
    length top == 0 || (text_eq key top || starts_with_separator (strip_prefix top key))
