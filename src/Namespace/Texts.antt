-- ===== src/Namespace/Texts.antt =====
-- crates/core/src/namespace.rs: the texts of containers and entries, `Display` and `FromStr`.
use elasticdms_desktop.Prelude.{
  ℕ, Bool, true, false, not, ◌&&◌, Option, none, some, [], ◌∷◌, ◌++◌, if◌then◌else◌, Result, ok,
  err, ok_or, map_err, ◌>>=◌,
}
use elasticdms_desktop.Text.{Text, codes, text_eq, contains, strip_prefix, split_once, rsplit_once}
use elasticdms_desktop.Identifier
use elasticdms_desktop.Identifier.{IdentifierError, Kind, prefix}
use elasticdms_desktop.Namespace.{Container, HintKind, EntryIdentifier}
use elasticdms_desktop.Namespace.Containers.{location, from_location}

pub data EntryIdentifierError : Type 0 where
  shape : Text → EntryIdentifierError
  identifier : IdentifierError → EntryIdentifierError

abbrev pub text_root : Text
text_root = codes "root"

abbrev pub text_baskets : Text
text_baskets = codes "baskets"

abbrev pub text_archives : Text
text_archives = codes "archives"

abbrev pub text_searches : Text
text_searches = codes "searches"

abbrev pub text_hint : HintKind → Text
text_hint HintKind.read_me = codes "hint-readme"
text_hint HintKind.truncated = codes "hint-truncated"

abbrev starts_with_underscore : Option Text → Bool
starts_with_underscore none = false
starts_with_underscore (some rest) = elim (strip_prefix (b'_' ∷ []) rest) [
  | none ↦ false
  | some _ ↦ true
]

-- `carries_prefix`
abbrev pub carries_prefix : Kind → Text → Bool
carries_prefix kind text = starts_with_underscore (strip_prefix (prefix kind) text)

-- `text.parse()?` of an identifier: the error is converted by `From`.
abbrev pub parse_id : Kind → Text → Result EntryIdentifierError ℕ
parse_id kind text = map_err identifier (Identifier.parse kind text)

-- `Display for Container`
unfoldable pub display_container : Container → Text
display_container Container.root = text_root
display_container Container.baskets = text_baskets
display_container Container.archives = text_archives
display_container Container.searches = text_searches
display_container (Container.basket k) = Identifier.display Kind.basket k
display_container (Container.archive k) = Identifier.display Kind.archive k
display_container (Container.case archive case) =
    Identifier.display Kind.archive archive ++ (b'/' ∷ Identifier.display Kind.case case)
display_container (Container.search k) = Identifier.display Kind.search k

-- The branch of `FromStr for Container` for a text with a `/`.
abbrev pub parse_case : Text → Text → Text → Result EntryIdentifierError Container
parse_case text archive case =
    if carries_prefix Kind.archive archive
      && (carries_prefix Kind.case case && not (contains b'/' case))
    then (do
      a ← parse_id Kind.archive archive
      c ← parse_id Kind.case case
      ok (Container.case a c))
    else err (shape text)

-- The branch for a text without one.
abbrev pub parse_plain : Text → Result EntryIdentifierError Container
parse_plain text =
    if text_eq text text_root
    then ok Container.root
    else if text_eq text text_baskets
    then ok Container.baskets
    else if text_eq text text_archives
    then ok Container.archives
    else if text_eq text text_searches
    then ok Container.searches
    else if carries_prefix Kind.basket text
    then (do k ← parse_id Kind.basket text; ok (Container.basket k))
    else if carries_prefix Kind.archive text
    then (do k ← parse_id Kind.archive text; ok (Container.archive k))
    else if carries_prefix Kind.search text
    then (do k ← parse_id Kind.search text; ok (Container.search k))
    else err (shape text)

-- `FromStr for Container`
unfoldable pub parse_container : Text → Result EntryIdentifierError Container
parse_container text = elim (split_once b'/' text) [
  | some (archive, case) ↦ parse_case text archive case
  | none ↦ parse_plain text
]

-- `Display for EntryIdentifier`
unfoldable pub display_entry : EntryIdentifier → Text
display_entry (EntryIdentifier.container b) = display_container b
display_entry (EntryIdentifier.document location document) =
    display_container (from_location location) ++ (b'/' ∷ Identifier.display Kind.document document)
display_entry (EntryIdentifier.hint location kind) =
    display_container location ++ (b'/' ∷ text_hint kind)

-- The branch of `FromStr for EntryIdentifier` for a text with a `/`, `back` behind the last one.
abbrev pub parse_below : Text → Text → Text → Result EntryIdentifierError EntryIdentifier
parse_below text front back =
    if text_eq back (text_hint HintKind.read_me)
    then (do l ← parse_container front; ok (EntryIdentifier.hint l HintKind.read_me))
    else if text_eq back (text_hint HintKind.truncated)
    then (do l ← parse_container front; ok (EntryIdentifier.hint l HintKind.truncated))
    else if carries_prefix Kind.document back
    then (do
      c ← parse_container front
      l ← ok_or (shape text) (location c)
      d ← parse_id Kind.document back
      ok (EntryIdentifier.document l d))
    else (do c ← parse_container text; ok (EntryIdentifier.container c))

-- `FromStr for EntryIdentifier`
unfoldable pub parse_entry : Text → Result EntryIdentifierError EntryIdentifier
parse_entry text = elim (rsplit_once b'/' text) [
  | none ↦ (do c ← parse_container text; ok (EntryIdentifier.container c))
  | some (front, back) ↦ parse_below text front back
]
