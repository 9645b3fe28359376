-- ===== src/Checks.antt =====
-- crates/cfapi/src/checks.rs: the checks of a name before it reaches Windows.
pub mod SyncRoot
use elasticdms_desktop.Prelude.{
  ℕ, ◌+◌, Bool, true, false, not, ◌&&◌, ◌||◌, List, [], ◌∷◌, ◌++◌, ltb, ◌==◌, if◌then◌else◌, length,
  Result, ok, err,
}
use elasticdms_desktop.Text.{Text, codes, text_eq, contains}
use elasticdms_desktop.Filename.{
  reserved_names, contains_text, is_whitespace, trim_end, stem_of, to_ascii_uppercase,
}

-- `MAX_NAME_UTF16`
abbrev pub max_name_utf16 : ℕ
max_name_utf16 = 255

-- `FORBIDDEN`
abbrev pub forbidden : Text
forbidden = codes "<>:\"/\\|?*"

-- `DEVICE_NAME`: the 22 names that `edms_core::filename` has too, and two more
abbrev pub device_names : List Text
device_names = reserved_names ++ (codes "CONIN$" ∷ codes "CONOUT$" ∷ [])

-- The sentences of `MirrorError::InvalidName`
pub data NameError : Type 0 where
  empty reference too_long control forbidden_character trailing device : NameError

-- `encode_utf16().count()`
abbrev pub utf16_len : Text → ℕ
utf16_len [] = 0
utf16_len (c ∷ t) = (if ltb c 0x10000 then 1 else 2) + utf16_len t

-- `chars().any(..)`
abbrev pub any : (ℕ → Bool) → Text → Bool
any p [] = false
any p (c ∷ t) = p c || any p t

-- `ends_with(c)`
abbrev pub ends_with : ℕ → Text → Bool
ends_with c [] = false
ends_with c (x ∷ []) = x == c
ends_with c (x ∷ y ∷ t) = ends_with c (y ∷ t)

-- `check_name`
unfoldable pub check_name : Text → Result NameError (Unit {0})
unfolding stem_of trim_end is_whitespace
check_name name =
    if length name == 0
    then err empty
    else if text_eq name (codes ".") || text_eq name (codes "..")
    then err reference
    else if ltb max_name_utf16 (utf16_len name)
    then err too_long
    else if any (λ z. ltb z 0x20) name
    then err control
    else if any (λ z. contains z forbidden) name
    then err forbidden_character
    else if ends_with b'.' name || ends_with b' ' name
    then err trailing
    else if contains_text device_names (to_ascii_uppercase (trim_end is_whitespace (stem_of name)))
    then err device
    else ok tt
