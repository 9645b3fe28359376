-- ===== src/Bridge/Frame.antt =====
-- crates/bridge/src/frame.rs: frames of a length, a kind and a payload. The source is the list of the
-- bytes that are still to come before it is closed; deadlines and cancellation are left out, and so is
-- serde, so that a message is its JSON bytes.
use elasticdms_desktop.Prelude.{
  ℕ, zero, suc, ◌+◌, ◌-◌, ◌*◌, ◌^◌, max, Bool, true, false, not, ◌&&◌, ◌||◌, List, [], ◌∷◌, ◌++◌,
  ltb, ◌==◌, if◌then◌else◌, length, take, drop, get_or, Result, ok, err, ◌>>=◌, be_bytes,
  from_be_bytes,
}

-- `KIND_JSON`, `KIND_PART`, `KIND_DATA`
abbrev pub kind_json : ℕ
kind_json = b'J'

abbrev pub kind_part : ℕ
kind_part = b'T'

abbrev pub kind_data : ℕ
kind_data = b'D'

-- `OFFSET_BYTES`, `MAX_JSON_FRAME`, `MAX_DATA_CHUNK`, `MAX_MESSAGE`
abbrev pub offset_bytes : ℕ
offset_bytes = 8

abbrev pub max_json_frame : ℕ
max_json_frame = 2 ^ 20

abbrev pub max_data_chunk : ℕ
max_data_chunk = 256 * 2 ^ 10

abbrev pub max_message : ℕ
max_message = 64 * 2 ^ 20

-- `Limit`
pub record Limit : Type 0 where
  pub json : ℕ
  pub message : ℕ
  pub chunks : Bool

-- `Limit::RESPONSE` without and `Limit::CONTENT` with data chunks
abbrev pub reading : Bool → Limit
reading chunks = record { json = max_json_frame; message = max_message; chunks = chunks }

abbrev pub content : Limit
content = reading true

-- `Header`
pub data Header : Type 0 where
  json part chunk : ℕ → Header

-- `Inbox`
pub data Inbox : Type 0 where
  message : List ℕ → Inbox
  piece : ℕ → List ℕ → Inbox

-- `ReadError`, with the sentences of its `Log`
pub data ReadError : Type 0 where
  closed without_kind no_parts no_chunks within_message without_offset : ReadError
  json_too_large chunk_too_large unknown_kind message_too_large : ℕ → ReadError

-- `read_exactly`
unfoldable pub read_exactly : ℕ → List ℕ → Result ReadError (List ℕ × List ℕ)
read_exactly n source =
    if ltb (length source) n then err closed else ok (take n source, drop n source)

-- The `match` on the kind; `payload` is the length without the kind.
unfoldable pub check_kind : Limit → Bool → ℕ → ℕ → Result ReadError Header
check_kind limit mid_message kind payload =
    if (kind == kind_json || kind == kind_part) && ltb limit.json payload
    then err (json_too_large payload)
    else if kind == kind_part && limit.message == 0
    then err no_parts
    else if kind == kind_json
    then ok (json payload)
    else if kind == kind_part
    then ok (part payload)
    else if not (kind == kind_data)
    then err (unknown_kind kind)
    else if not limit.chunks
    then err no_chunks
    else if mid_message
    then err within_message
    else if ltb payload offset_bytes
    then err without_offset
    else if ltb max_data_chunk (payload - offset_bytes)
    then err (chunk_too_large (payload - offset_bytes))
    else ok (chunk (payload - offset_bytes))

abbrev pub with_length : Limit → Bool → List ℕ × List ℕ → Result ReadError (Header × List ℕ)
with_length limit mid_message (header, rest) =
    if from_be_bytes (take 4 header) == 0 then err without_kind else (do
      h ← check_kind limit mid_message (get_or header 4 0) (from_be_bytes (take 4 header) - 1)
      ok (h, rest))

-- `read_kind_and_check`
unfoldable pub read_kind_and_check : Limit → Bool → List ℕ → Result ReadError (Header × List ℕ)
read_kind_and_check limit mid_message source = do
  read ← read_exactly 5 source
  with_length limit mid_message read

abbrev pub is_nonempty : List ℕ → Bool
is_nonempty [] = false
is_nonempty (_ ∷ _) = true

-- What a frame of a message adds to what was collected.
abbrev pub collect : Limit → List ℕ → ℕ → List ℕ → Result ReadError (List ℕ × List ℕ)
collect limit collected n source =
    if ltb (max limit.message limit.json) (length collected + n)
    then err (message_too_large (max limit.message limit.json))
    else (do read ← read_exactly n source; ok (collected ++ read.0, read.1))

abbrev pub read_piece : ℕ → List ℕ → Result ReadError (Inbox × List ℕ)
read_piece n source = do
  offset ← read_exactly offset_bytes source
  bytes ← read_exactly n offset.1
  ok (piece (from_be_bytes offset.0) bytes.0, bytes.1)

abbrev pub read_frame :
    Limit
    → List ℕ
    → (List ℕ → List ℕ → Result ReadError (Inbox × List ℕ))
    → Header × List ℕ
    → Result ReadError (Inbox × List ℕ)
read_frame limit collected again (json n, source) = do
  read ← collect limit collected n source
  ok (message read.0, read.1)
read_frame limit collected again (part n, source) = do
  read ← collect limit collected n source
  again read.0 read.1
read_frame limit collected again (chunk n, source) = read_piece n source

-- The loop of `read_inbox`. Every round takes at least the five bytes of a header.
unfoldable pub read_from : ℕ → Limit → List ℕ → List ℕ → Result ReadError (Inbox × List ℕ)
read_from zero limit collected source = err closed
read_from (suc rounds) limit collected source = do
  header ← read_kind_and_check limit (is_nonempty collected) source
  read_frame limit collected (λ c rest. read_from rounds limit c rest) header

-- `read_inbox`, with what is left of the source
unfoldable pub read_inbox : Limit → List ℕ → Result ReadError (Inbox × List ℕ)
unfolding read_from
read_inbox limit source = read_from (suc (length source)) limit [] source

-- `WriteError`, and the refusals of `write_data` and `write_frame`
pub data WriteError : Type 0 where
  too_large : ℕ → WriteError
  invalid_input : ℕ → WriteError

-- `write_frame`: the bytes that are written
unfoldable pub write_frame : ℕ → List ℕ → Result WriteError (List ℕ)
write_frame kind payload =
    if ltb (1 + length payload) (2 ^ 32)
    then ok (be_bytes 4 (1 + length payload) ++ kind ∷ payload)
    else err (invalid_input (1 + length payload))

-- The loop of `write_json`, with a round for every byte
unfoldable pub write_parts : ℕ → List ℕ → Result WriteError (List ℕ)
unfolding write_frame
write_parts zero rest = write_frame kind_json rest
write_parts (suc rounds) rest =
    if ltb max_json_frame (length rest)
    then (do
      first ← write_frame kind_part (take max_json_frame rest)
      later ← write_parts rounds (drop max_json_frame rest)
      ok (first ++ later))
    else write_frame kind_json rest

-- `write_json`
unfoldable pub write_json : List ℕ → Result WriteError (List ℕ)
unfolding write_parts
write_json text =
    if ltb max_message (length text)
    then err (too_large (length text))
    else write_parts (length text) text

-- `write_data`
unfoldable pub write_data : ℕ → List ℕ → Result WriteError (List ℕ)
unfolding write_frame
write_data offset bytes =
    if ltb max_data_chunk (length bytes)
    then err (invalid_input (length bytes))
    else write_frame kind_data (be_bytes 8 offset ++ bytes)
