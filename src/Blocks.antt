-- ===== src/Blocks.antt =====
-- crates/cfapi/src/blocks.rs: the buffer that hands content over to Windows in aligned chunks.
-- The callback `output` is an argument: it has a state of its own and may refuse a chunk.
pub mod Stream
pub mod Chunks
pub mod Whole
use elasticdms_desktop.Prelude.{
  ℕ, zero, suc, ◌+◌, ◌-◌, ◌*◌, ◌/◌, ◌%◌, ◌^◌, max, min, Bool, true, false, not, ◌&&◌, ◌||◌, Option,
  none, some, List, [], ◌++◌, ltb, leb, ◌==◌, if◌then◌else◌, length, take, drop, Result, ok, err,
}
use elasticdms_desktop.Text.{Text}

-- `ALIGNMENT`
abbrev pub alignment : ℕ
alignment = 4096

-- `CHUNK_SIZE`
abbrev pub chunk_size : ℕ
chunk_size = 2 ^ 20

-- `SinkError`, with its sentence
abbrev pub SinkError : Type 0
SinkError = Text

pub data BlockError : Type 0 where
  gap : ℕ → ℕ → BlockError
  over_end : ℕ → ℕ → BlockError
  incomplete : ℕ → ℕ → BlockError
  hand_off : SinkError → BlockError

pub record BlockBuffer : Type 0 where
  pub total : ℕ
  pub received : ℕ
  pub sent : ℕ
  pub buffer : List ℕ
  pub chunk : ℕ
  pub completed : Bool

-- `with_chunk_size`; `usize` has 64 bits, and the multiplication wraps.
unfoldable pub with_chunk_size : ℕ → ℕ → BlockBuffer
with_chunk_size total chunk = record {
  total = total;
  received = 0;
  sent = 0;
  buffer = [];
  chunk = (max chunk 1 + (alignment - 1)) / alignment * alignment % 2 ^ 64;
  completed = false;
}

-- `new`
unfoldable pub new : ℕ → BlockBuffer
unfolding with_chunk_size
new total = with_chunk_size total chunk_size

abbrev pub is_empty : List ℕ → Bool
is_empty xs = length xs == 0

-- What the callback answers: its new state, and the refusal if there was one.
module _ {S : Type 0} (output : S → ℕ → List ℕ → S × Option SinkError) where
  -- `output(self.sent, bytes)?; self.sent += advance; self.buffer.clear();` in `clear`'s case
  unfoldable pub send : BlockBuffer → S → List ℕ → ℕ → Bool → BlockBuffer × S × Option SinkError
  send b s bytes advance clear =
      let (s', answer) = output s b.sent bytes in
      elim answer [
        | some e ↦ (b, s', some e)
        | none ↦ (
          record b { sent = b.sent + advance; buffer = if clear then [] else b.buffer },
          s',
          none,
        )
      ]

  -- The `if` on a buffer that is not empty: it is filled, and sent once full. The result names what
  -- is left of the data.
  unfoldable pub fill : BlockBuffer → S → List ℕ → BlockBuffer × S × List ℕ × Option SinkError
  unfolding send
  fill b s data_in =
      if is_empty b.buffer
      then (b, s, data_in, none)
      else (let missing = b.chunk - length b.buffer in
          let cut = min missing (length data_in) in
          let filled = record b { buffer = b.buffer ++ take cut data_in } in
          let rest = drop cut data_in in
          if length filled.buffer == filled.chunk
          then (let (b', s', e) = send filled s filled.buffer filled.chunk true in
              (b', s', rest, e))
          else (filled, s, rest, none))

  -- The `while` loop over whole chunks, on fuel. For a chunk of 0, which `with_chunk_size` makes only of a
  -- size above 2^64 - 4096, the loop of the source does not end.
  unfoldable pub send_chunks :
      ℕ → BlockBuffer → S → List ℕ → BlockBuffer × S × List ℕ × Option SinkError
  unfolding send
  send_chunks zero b s rest = (b, s, rest, none)
  send_chunks (suc fuel) b s rest = elim (leb b.chunk (length rest)) [
    | false ↦ (b, s, rest, none)
    | true ↦
        let (b', s', e) = send b s (take b.chunk rest) b.chunk false in
        elim e [
          | some x ↦ (b', s', drop b.chunk rest, some x)
          | none ↦ send_chunks fuel b' s' (drop b.chunk rest)
        ]
  ]

  -- The end of `take`: `self.buffer.extend_from_slice(rest)`.
  abbrev pub keep_rest :
      BlockBuffer × S × List ℕ × Option SinkError → BlockBuffer × S × Result BlockError (Unit {0})
  keep_rest (b, s, rest, some e) = (b, s, err (hand_off e))
  keep_rest (b, s, rest, none) = (record b { buffer = b.buffer ++ rest }, s, ok tt)

  -- The loop and the end, unless filling the buffer was refused. As many rounds as there are bytes
  -- are enough for a chunk of at least one byte.
  abbrev pub then_chunks :
      BlockBuffer × S × List ℕ × Option SinkError → BlockBuffer × S × List ℕ × Option SinkError
  then_chunks (b, s, rest, some e) = (b, s, rest, some e)
  then_chunks (b, s, rest, none) = send_chunks (length rest) b s rest

  -- `take`
  unfoldable pub take_chunk :
      BlockBuffer → S → ℕ → List ℕ → BlockBuffer × S × Result BlockError (Unit {0})
  unfolding fill send_chunks
  take_chunk b s offset data_in =
      let until = offset + length data_in in
      if not (offset == b.received)
      then (b, s, err (gap b.received offset))
      else if leb (2 ^ 64) until
      then (b, s, err (over_end (2 ^ 64 - 1) b.total))
      else if ltb b.total until
      then (b, s, err (over_end until b.total))
      else keep_rest (then_chunks (fill (record b { received = until }) s data_in))

  abbrev pub mark_completed :
      BlockBuffer × S × Option SinkError → BlockBuffer × S × Result BlockError ℕ
  mark_completed (b, s, some e) = (b, s, err (hand_off e))
  mark_completed (b, s, none) = (record b { completed = true }, s, ok b.total)

  -- `complete`
  unfoldable pub complete : BlockBuffer → S → BlockBuffer × S × Result BlockError ℕ
  unfolding send
  complete b s =
      if not (b.received == b.total)
      then (b, s, err (incomplete b.received b.total))
      else mark_completed (
          if not b.completed && (not (is_empty b.buffer) || b.total == 0)
          then send b s b.buffer (length b.buffer) true
          else (b, s, none))
