-- ===== src/Filename.antt =====
-- crates/core/src/filename.rs: what a document is called in Explorer and in Finder. Unicode
-- normalization (`nfc`, a third-party crate) and `str::to_lowercase` (tables of Unicode) are
-- arguments.
pub mod Characters
pub mod Lengths
pub mod Ends
pub mod Accepted
pub mod Siblings
use elasticdms_desktop.Prelude.{
  ℕ, zero, suc, ◌+◌, ◌-◌, Bool, true, false, not, ◌&&◌, ◌||◌, Option, none, some, List, [], ◌∷◌,
  ◌++◌, map, ltb, leb, ◌==◌, if◌then◌else◌, length, take, drop,
}
use elasticdms_desktop.Text.{Text, codes, text_eq, utf8_width, utf8_len}

-- `MAX_TITLE_BYTES`
abbrev pub max_title_bytes : ℕ
max_title_bytes = 180

-- `UNNAMED`
abbrev pub unnamed : Text
unnamed = codes "Unbenannt"

-- `RESERVED`
abbrev pub reserved_names : List Text
reserved_names =
    codes "CON"
    ∷ codes "PRN"
    ∷ codes "AUX"
    ∷ codes "NUL"
    ∷ codes "COM1"
    ∷ codes "COM2"
    ∷ codes "COM3"
    ∷ codes "COM4"
    ∷ codes "COM5"
    ∷ codes "COM6"
    ∷ codes "COM7"
    ∷ codes "COM8"
    ∷ codes "COM9"
    ∷ codes "LPT1"
    ∷ codes "LPT2"
    ∷ codes "LPT3"
    ∷ codes "LPT4"
    ∷ codes "LPT5"
    ∷ codes "LPT6"
    ∷ codes "LPT7"
    ∷ codes "LPT8"
    ∷ codes "LPT9"
    ∷ []

-- `slice.contains(&text)`
abbrev pub contains_text : List Text → Text → Bool
contains_text [] t = false
contains_text (s ∷ ss) t = text_eq s t || contains_text ss t

-- `char::is_control`
unfoldable pub is_control : ℕ → Bool
is_control c = ltb c 0x20 || (leb 0x7f c && leb c 0x9f)

-- `char::is_whitespace`
unfoldable pub is_whitespace : ℕ → Bool
is_whitespace c =
    (leb 9 c && leb c 13)
    || (c == 0x20
        || (c == 0x85
            || (c == 0xa0
                || (c == 0x1680
                    || ((leb 0x2000 c && leb c 0x200a)
                        || (c == 0x2028
                            || (c == 0x2029 || (c == 0x202f || (c == 0x205f || c == 0x3000)))))))))

abbrev becomes_dash : ℕ → Bool
becomes_dash c = c == b'/' || (c == b'\\' || (c == b':' || c == b'|'))

abbrev becomes_underscore : ℕ → Bool
becomes_underscore c = c == b'<' || (c == b'>' || (c == b'"' || (c == b'?' || c == b'*')))

-- The replacement of one character.
unfoldable pub replace : ℕ → ℕ
unfolding is_control
replace c =
    if becomes_dash c
    then b'-'
    else if becomes_underscore c
    then b'_'
    else if is_control c
    then b' '
    else c

-- What one round pushes: one space for a run of white space, none at the start.
unfoldable pub push_char : Text → Bool → ℕ → Text
unfolding is_whitespace
push_char from space_before c =
    if is_whitespace c
    then (if not space_before && not (length from == 0) then from ++ b' ' ∷ [] else from)
    else from ++ c ∷ []

-- The loop of `sanitize`; `from` holds what was pushed, `space_before` the flag.
unfoldable pub clean : Text → Bool → Text → Text
unfolding replace push_char
clean from space_before [] = from
clean from space_before (c ∷ rest) =
    clean (push_char from space_before (replace c)) (is_whitespace (replace c)) rest

-- `trim_start_matches`
unfoldable pub trim_start : (ℕ → Bool) → Text → Text
trim_start p [] = []
trim_start p (c ∷ t) = if p c then trim_start p t else c ∷ t

abbrev pub keep_front : (ℕ → Bool) → ℕ → Text → Text
keep_front p c [] = if p c then [] else c ∷ []
keep_front p c (d ∷ r) = c ∷ d ∷ r

-- `trim_end_matches`
unfoldable pub trim_end : (ℕ → Bool) → Text → Text
trim_end p [] = []
trim_end p (c ∷ t) = keep_front p c (trim_end p t)

-- `str::trim`
unfoldable pub trim : Text → Text
unfolding trim_start trim_end is_whitespace
trim t = trim_end is_whitespace (trim_start is_whitespace t)

-- The longest prefix of whole characters within `limit` bytes: the loop of `truncate_on_bytes` goes
-- back from byte `limit` to the nearest character boundary.
unfoldable pub truncate : ℕ → Text → Text
truncate limit [] = []
truncate limit (c ∷ t) =
    if leb (utf8_width c) limit then c ∷ truncate (limit - utf8_width c) t else []

-- `truncate_on_bytes`
unfoldable pub truncate_on_bytes : Text → ℕ → Text
unfolding truncate
truncate_on_bytes text limit = if leb (utf8_len text) limit then text else truncate limit text

-- `text.split(c).next()`
unfoldable pub split_first : ℕ → Text → Text
split_first s [] = []
split_first s (c ∷ t) = if c == s then [] else c ∷ split_first s t

-- `text.split('.').next()`
unfoldable pub stem_of : Text → Text
unfolding split_first
stem_of t = split_first b'.' t

-- `to_ascii_uppercase`
abbrev pub upper : ℕ → ℕ
upper c = if leb b'a' c && leb c b'z' then c - 32 else c

abbrev pub to_ascii_uppercase : Text → Text
to_ascii_uppercase [] = []
to_ascii_uppercase (c ∷ t) = upper c ∷ to_ascii_uppercase t

abbrev pub dot_or_space : ℕ → Bool
dot_or_space c = c == b'.' || c == b' '

abbrev pub is_dot : ℕ → Bool
is_dot c = c == b'.'

-- The title between the loop and the device names: `trim`, the bound, the end, the empty name.
unfoldable pub bounded : Text → Text
unfolding trim_start trim_end trim truncate_on_bytes
bounded from =
    let cut =
      trim_end dot_or_space (truncate_on_bytes (trim (trim_start is_dot from)) max_title_bytes) in
    if length cut == 0 then unnamed else cut

-- The last step: an underscore behind a reserved stem. `String::insert` takes a place in bytes; a
-- reserved stem is ASCII, so that it has as many characters.
unfoldable pub avoid_device : Text → Text
unfolding trim stem_of
avoid_device from =
    let stem = trim (to_ascii_uppercase (stem_of from)) in
    if contains_text reserved_names stem
    then take (length stem) from ++ b'_' ∷ drop (length stem) from
    else from

-- `sanitize`
unfoldable pub sanitize : (Text → Text) → Text → Text
unfolding clean bounded avoid_device
sanitize nfc title = avoid_device (bounded (clean [] false (nfc title)))

-- `assemble`
unfoldable pub assemble : Text → Option Text → Option Text → Text
assemble title short_form extension =
    title
    ++ (elim short_form [ none ↦ [] | some k ↦ codes " (" ++ (k ++ codes ")") ]
        ++ (elim extension [ none ↦ [] | some e ↦ b'.' ∷ e ]))
