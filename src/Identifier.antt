-- ===== src/Identifier.antt =====
-- crates/core/src/identifier.rs: typed identifiers with a 128-bit value, their base-32 text of 26
-- characters behind a prefix, and the UUID text. `Identifier<A>` is its value; the type
-- parameter `A` is the constructor of `Kind`.
pub mod Digits
pub mod RoundTrip
pub mod Canonical
pub mod Texts
pub mod Uuid
use elasticdms_desktop.Prelude.{
  ℕ, zero, suc, ◌+◌, ◌-◌, ◌*◌, ◌/◌, ◌%◌, ◌^◌, ◌≡◌, Bool, true, false, not, ◌&&◌, ◌||◌, Option, none,
  some, List, [], ◌∷◌, ◌++◌, ltb, ◌==◌, if◌then◌else◌, drop, take, get_or, Result, ok, err, ok_or,
  ◌>>=◌,
}
use elasticdms_desktop.Prelude
use elasticdms_desktop.Text.{Text, codes, utf8_len, strip_prefix}

-- `ALPHABET`
abbrev pub alphabet : Text
alphabet = codes "0123456789ABCDEFGHJKMNPQRSTVWXYZ"

-- `LENGTH`
abbrev pub id_length : ℕ
id_length = 26

-- `SHORT_FORM_LENGTH`
abbrev pub short_form_length : ℕ
short_form_length = 8

-- `UUID_TEXT_LENGTH`
abbrev pub uuid_text_length : ℕ
uuid_text_length = 36

pub data IdentifierError : Type 0 where
  wrong_prefix : Text → Text → IdentifierError
  length : Text → ℕ → IdentifierError
  character : Text → ℕ → ℕ → IdentifierError
  overflow : Text → ℕ → IdentifierError
  uuid_text : Text → IdentifierError

-- The types that implement the trait `Kind`.
pub data Kind : Type 0 where
  device user upload document archive case basket search command : Kind

-- `Kind::PREFIX`
abbrev pub prefix : Kind → Text
prefix Kind.device = codes "dev"
prefix Kind.user = codes "usr"
prefix Kind.upload = codes "upl"
prefix Kind.document = codes "doc"
prefix Kind.archive = codes "arc"
prefix Kind.case = codes "cas"
prefix Kind.basket = codes "bsk"
prefix Kind.search = codes "srch"
prefix Kind.command = codes "cmd"

-- The characters of `encode` for the lowest `n` places, the highest first: place `i` holds the
-- five bits `(value >> (5 * i)) & 0x1f`.
unfoldable pub encode_places : ℕ → ℕ → Text
encode_places zero value = []
encode_places (suc i) value = get_or alphabet (value / 2 ^ (5 * i) % 32) 0 ∷ encode_places i value

-- `encode`
unfoldable pub encode : ℕ → Text
unfolding encode_places
encode value = encode_places id_length value

-- `identifier_part`
unfoldable pub identifier_part : ℕ → Text
identifier_part value = encode value

-- `short_form`
unfoldable pub short_form : ℕ → Text
unfolding identifier_part
short_form value = drop (id_length - short_form_length) (identifier_part value)

-- `ALPHABET.iter().position(..)`, from place `i` on
unfoldable pub position : ℕ → Text → ℕ → Option ℕ
position c [] i = none
position c (x ∷ xs) i = if x == c then some i else position c xs (i + 1)

-- The loop of `decode`: `(value << 5) | index` on `u128`, where the five low bits of the shifted
-- value are zero, so that `|` adds.
unfoldable pub decode_from : Text → ℕ → ℕ → Text → Result IdentifierError ℕ
decode_from whole i value [] = ok value
decode_from whole i value (c ∷ rest) = elim (position c alphabet 0) [
  | none ↦ err (character whole c (i + 1))
  | some index ↦
      let later = decode_from whole (i + 1) (value * 32 % 2 ^ 128 + index) rest in
      if i == 0 && ltb 7 index then err (overflow whole c) else later
]

-- `decode`
unfoldable pub decode : Text → Text → Result IdentifierError ℕ
unfolding decode_from
decode whole part =
    let read = Prelude.length part in
    if not (read == id_length) || not (utf8_len part == id_length)
    then err (IdentifierError.length whole read)
    else decode_from whole 0 0 part

-- `Display for Identifier<A>`
unfoldable pub display : Kind → ℕ → Text
display kind value = prefix kind ++ (b'_' ∷ identifier_part value)

abbrev pub strip_underscore : Option Text → Option Text
strip_underscore none = none
strip_underscore (some rest) = strip_prefix (b'_' ∷ []) rest

-- `FromStr for Identifier<A>`
unfoldable pub parse : Kind → Text → Result IdentifierError ℕ
parse kind text = do
  part ←
      ok_or (wrong_prefix text (prefix kind)) (strip_underscore (strip_prefix (prefix kind) text))
  decode text part
