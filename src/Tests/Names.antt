-- ===== src/Tests/Names.antt =====
-- Identifiers, entry identifiers and the file provider's markers at concrete inputs.
use elasticdms_desktop.Prelude.{ℕ, ◌^◌, ◌<◌, ◌≡◌, refl, List, [], ◌∷◌, ok, arith}
use elasticdms_desktop.Text.{Text, codes}
use elasticdms_desktop.Identifier.{
  Kind, encode_places, encode, position, decode_from, decode, display, parse,
}
use elasticdms_desktop.Identifier.Uuid.{as_uuid_text, from_uuid_text, from_uuid_text-as_uuid_text}
use elasticdms_desktop.Identifier.Canonical.{decode_ok}
use elasticdms_desktop.Identifier.Texts.{parse-display, parse_ok}
use elasticdms_desktop.Namespace.{Container, Location, HintKind, EntryIdentifier}
use elasticdms_desktop.Namespace.Containers.{from_location}
use elasticdms_desktop.Namespace.Texts.{display_entry, parse_container, parse_entry}
use elasticdms_desktop.Namespace.RoundTrip.{Fits, parse_entry-display}
use elasticdms_desktop.Namespace.Canonical.{parse_entry_ok}
use elasticdms_desktop.Anchor.{Anchor, PageMarker, bytes, read, marker_bytes, marker_read}
use elasticdms_desktop.Anchor.RoundTrip.{read-bytes, marker_read-marker_bytes}

-- The value 42 as text.
abbrev forty_two : Text
forty_two = codes "0000000000000000000000001A"

encode-forty_two : encode 42 ≡ forty_two
unfolding encode encode_places
encode-forty_two = refl

decode_ok_example : (42 < 2 ^ 128) × (encode 42 ≡ forty_two)
unfolding decode decode_from position
decode_ok_example = decode_ok [] forty_two 42 refl

parse-display_example : parse Kind.document (display Kind.document 42) ≡ ok 42
parse-display_example = parse-display Kind.document 42 (omega arith)

parse_ok_example :
    (42 < 2 ^ 128) × (display Kind.document 42 ≡ codes "doc_0000000000000000000000001A")
unfolding parse decode decode_from position
parse_ok_example = parse_ok Kind.document (codes "doc_0000000000000000000000001A") 42 refl

from_uuid_text-as_uuid_text_example : from_uuid_text (as_uuid_text 42) ≡ ok 42
from_uuid_text-as_uuid_text_example = from_uuid_text-as_uuid_text 42 (omega arith)

-- A document of case file 42 in archive 41.
abbrev filed : EntryIdentifier
filed = EntryIdentifier.document (Location.case 41 42) 43

parse_entry-display_example : parse_entry (display_entry filed) ≡ ok filed
unfolding from_location
parse_entry-display_example = parse_entry-display filed ((omega arith, omega arith), omega arith)

parse_entry_ok_example :
    Fits (EntryIdentifier.hint (Container.basket 42) HintKind.read_me)
    × (display_entry (EntryIdentifier.hint (Container.basket 42) HintKind.read_me)
        ≡ codes "bsk_0000000000000000000000001A/hint-readme")
unfolding parse_entry parse_container parse decode decode_from position
parse_entry_ok_example =
    parse_entry_ok (codes "bsk_0000000000000000000000001A/hint-readme")
      (EntryIdentifier.hint (Container.basket 42) HintKind.read_me) refl

abbrev seven : Anchor
seven = record { sequence = 7 }

abbrev seven_field : List ℕ
seven_field = 1 ∷ 0 ∷ 0 ∷ 0 ∷ 0 ∷ 0 ∷ 0 ∷ 0 ∷ 7 ∷ []

read-bytes_example : read (bytes seven) ≡ ok seven
read-bytes_example = read-bytes seven (omega arith)

abbrev page : PageMarker
page = record { container_index = 1; offset = 2; plan = 3; children = 4 }

marker_read-marker_bytes_example : marker_read (marker_bytes page) ≡ ok page
marker_read-marker_bytes_example =
    marker_read-marker_bytes page (omega arith) (omega arith) (omega arith) (omega arith)

abbrev page_field : List ℕ
page_field =
    1 ∷ 0 ∷ 0 ∷ 0 ∷ 1 ∷ 0 ∷ 0 ∷ 0 ∷ 2 ∷ 0 ∷ 0 ∷ 0 ∷ 0 ∷ 0 ∷ 0 ∷ 0 ∷ 3 ∷ 0 ∷ 0 ∷ 0 ∷ 0 ∷ 0 ∷ 0 ∷ 0
    ∷ 4 ∷ []
