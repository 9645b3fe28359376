-- ===== src/Tests/Bridge.antt =====
-- The frames of the bridge at concrete inputs.
use elasticdms_desktop.Prelude.{
  ℕ, ◌≡◌, refl, true, false, List, [], ◌∷◌, ◌++◌, arith, ok, err, be_bytes, from_be_bytes,
}
use elasticdms_desktop.Bridge.Frame.{
  reading, content, closed, no_chunks, unknown_kind, message, piece, read_exactly, check_kind,
  read_kind_and_check, read_from, read_inbox, write_frame, write_parts, write_json, write_data,
}
use elasticdms_desktop.Bridge.Limits.{IsWithin, read_inbox-IsWithin}
use elasticdms_desktop.Bridge.Parts.{read_inbox-write_json}
use elasticdms_desktop.Bridge.Chunks.{read_inbox-write_data}

-- `{}` as one frame
abbrev empty_object : List ℕ
empty_object = 0 ∷ 0 ∷ 0 ∷ 3 ∷ 74 ∷ 123 ∷ 125 ∷ []

write_json-empty_object : write_json (123 ∷ 125 ∷ []) ≡ ok empty_object
unfolding write_json write_parts write_frame be_bytes
write_json-empty_object = refl

read_inbox-empty_object : read_inbox content empty_object ≡ ok (message (123 ∷ 125 ∷ []), [])
unfolding read_inbox read_from read_kind_and_check check_kind read_exactly from_be_bytes
read_inbox-empty_object = refl

-- A frame that breaks off, one of an unknown kind, and a chunk where none may arrive
read_inbox_closed : read_inbox content (0 ∷ 0 ∷ 0 ∷ 3 ∷ 74 ∷ 123 ∷ []) ≡ err closed
unfolding read_inbox read_from read_kind_and_check check_kind read_exactly from_be_bytes
read_inbox_closed = refl

read_inbox_unknown : read_inbox content (0 ∷ 0 ∷ 0 ∷ 1 ∷ 65 ∷ []) ≡ err (unknown_kind 65)
unfolding read_inbox read_from read_kind_and_check check_kind read_exactly from_be_bytes
read_inbox_unknown = refl

read_inbox_chunk : read_inbox (reading false) (0 ∷ 0 ∷ 0 ∷ 1 ∷ 68 ∷ []) ≡ err no_chunks
unfolding read_inbox read_from read_kind_and_check check_kind read_exactly from_be_bytes
read_inbox_chunk = refl

read_inbox-write_json_example :
    (bytes : List ℕ) × (write_json (123 ∷ 125 ∷ []) ≡ ok bytes)
    × (read_inbox (reading true) (bytes ++ 7 ∷ []) ≡ ok (message (123 ∷ 125 ∷ []), 7 ∷ []))
read_inbox-write_json_example = read_inbox-write_json true (123 ∷ 125 ∷ []) (7 ∷ []) (omega arith)

read_inbox-write_data_example :
    (sent : List ℕ) × (write_data 4096 (1 ∷ 2 ∷ []) ≡ ok sent)
    × (read_inbox content (sent ++ 7 ∷ []) ≡ ok (piece 4096 (1 ∷ 2 ∷ []), 7 ∷ []))
read_inbox-write_data_example =
    read_inbox-write_data 4096 (1 ∷ 2 ∷ []) (7 ∷ []) (omega arith) (omega arith)

read_inbox-IsWithin_example : IsWithin content (message (123 ∷ 125 ∷ []))
read_inbox-IsWithin_example =
    read_inbox-IsWithin content empty_object (message (123 ∷ 125 ∷ [])) [] read_inbox-empty_object
