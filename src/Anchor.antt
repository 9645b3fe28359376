-- ===== src/Anchor.antt =====
-- crates/fileprovider/src/anchor.rs: the sync anchor and the page marker as byte fields.
pub mod RoundTrip
use elasticdms_desktop.Prelude.{
  ℕ, ◌+◌, Bool, not, List, [], ◌∷◌, ◌++◌, ◌==◌, if◌then◌else◌, length, get_or, Result, ok, err,
  be_bytes, from_be_bytes, slice,
}

abbrev pub anchor_version : ℕ
anchor_version = 1

abbrev pub anchor_length : ℕ
anchor_length = 1 + 8

abbrev pub marker_version : ℕ
marker_version = 1

abbrev pub marker_length : ℕ
marker_length = 1 + 4 + 4 + 8 + 8

pub data MarkerError : Type 0 where
  wrong_length : ℕ → ℕ → MarkerError
  version : ℕ → ℕ → MarkerError

pub record Anchor : Type 0 where
  pub sequence : ℕ

-- `Anchor::bytes`
unfoldable pub bytes : Anchor → List ℕ
bytes a = anchor_version ∷ be_bytes 8 a.sequence

-- `Anchor::read`
unfoldable pub read : List ℕ → Result MarkerError Anchor
read field =
    if not (length field == anchor_length)
    then err (wrong_length (length field) anchor_length)
    else if not (get_or field 0 0 == anchor_version)
    then err (version (get_or field 0 0) anchor_version)
    else ok (record { sequence = from_be_bytes (slice 1 9 field) })

pub record PageMarker : Type 0 where
  pub container_index : ℕ
  pub offset : ℕ
  pub plan : ℕ
  pub children : ℕ

-- `PageMarker::bytes`
unfoldable pub marker_bytes : PageMarker → List ℕ
marker_bytes m =
    marker_version ∷ be_bytes 4 m.container_index
    ++ (be_bytes 4 m.offset ++ (be_bytes 8 m.plan ++ be_bytes 8 m.children))

-- The fields of a page marker at their places.
abbrev pub marker_of : List ℕ → PageMarker
marker_of field = record {
  container_index = from_be_bytes (slice 1 5 field);
  offset = from_be_bytes (slice 5 9 field);
  plan = from_be_bytes (slice 9 17 field);
  children = from_be_bytes (slice 17 25 field);
}

-- `PageMarker::read`
unfoldable pub marker_read : List ℕ → Result MarkerError PageMarker
marker_read field =
    if not (length field == marker_length)
    then err (wrong_length (length field) marker_length)
    else if not (get_or field 0 0 == marker_version)
    then err (version (get_or field 0 0) marker_version)
    else ok (marker_of field)
