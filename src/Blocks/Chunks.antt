-- ===== src/Blocks/Chunks.antt =====
-- crates/cfapi/src/blocks.rs: the calls that a callback receives, and the loop over whole chunks.
use elasticdms_desktop.Prelude.{
  ℕ, zero, suc, ◌+◌, ◌%◌, ◌≤◌, ◌<◌, ◌≡◌, refl, sym, ap, ◌∙◌, Option, none, List, [], ◌∷◌, ◌++◌, leb,
  leb→le, length, take, drop, length-append, length-take, length-drop, take-append-drop, append-nil,
  append_assoc, arith, Bool-cases, inl, inr,
}
use elasticdms_desktop.Blocks.{BlockBuffer, SinkError, alignment, send_chunks}

-- The offsets and bytes of the calls, the first call first.
abbrev pub Calls : Type 0
Calls = List (ℕ × List ℕ)

-- A callback that accepts every chunk and records the call.
abbrev pub record_call : Calls → ℕ → List ℕ → Calls × Option SinkError
record_call calls offset bytes = (calls ++ (offset, bytes) ∷ [], none)

-- All the bytes handed over.
unfoldable pub bytes_of : Calls → List ℕ
bytes_of [] = []
bytes_of ((o, bytes) ∷ calls) = bytes ++ bytes_of calls

-- From `start` on, each call begins where the one before ended, at a multiple of the alignment,
-- and hands over a whole chunk.
abbrev pub AreChunks : ℕ → ℕ → Calls → Type 0
AreChunks chunk start [] = Unit
AreChunks chunk start ((offset, bytes) ∷ calls) =
    (offset ≡ start)
    × (offset % alignment ≡ 0)
    × (length bytes ≡ chunk)
    × AreChunks chunk (start + length bytes) calls

pub bytes_of-snoc :
    (calls : Calls) (o : ℕ) (bytes : List ℕ)
    → bytes_of (calls ++ (o, bytes) ∷ []) ≡ bytes_of calls ++ bytes
unfolding bytes_of
bytes_of-snoc [] o bytes = append-nil bytes
bytes_of-snoc ((p, c) ∷ calls) o bytes =
    ap (λ t. c ++ t) (bytes_of-snoc calls o bytes) ∙ sym (append_assoc c (bytes_of calls) bytes)

pub AreChunks-snoc :
    (chunk start : ℕ) (calls : Calls) (o : ℕ) (bytes : List ℕ)
    → AreChunks chunk start calls
    → o ≡ start + length (bytes_of calls)
    → o % alignment ≡ 0
    → length bytes ≡ chunk
    → AreChunks chunk start (calls ++ (o, bytes) ∷ [])
unfolding bytes_of
AreChunks-snoc chunk start [] o bytes h p q r = (omega arith, q, r, tt)
AreChunks-snoc chunk start ((o', c) ∷ calls) o bytes h p q r = (
  h.0,
  h.1,
  h.2,
  AreChunks-snoc chunk (start + length c) calls o bytes h.3
      (omega (arith, length-append c (bytes_of calls))) q r,
)

-- What has been handed over when `sent` bytes are.
pub record HandedOver (chunk sent : ℕ) (calls : Calls) : Type 0 where
  pub chunks : AreChunks chunk 0 calls
  pub counted : sent ≡ length (bytes_of calls)
  pub aligned : sent % alignment ≡ 0
  pub chunk_aligned : chunk % alignment ≡ 0
  pub chunk_pos : 0 < chunk

-- One more whole chunk.
pub send-HandedOver :
    (chunk sent : ℕ) (calls : Calls) (bytes : List ℕ)
    → HandedOver chunk sent calls
    → length bytes ≡ chunk
    → HandedOver chunk (sent + chunk) (calls ++ (sent, bytes) ∷ [])
send-HandedOver chunk sent calls bytes h n = record {
  chunks = AreChunks-snoc chunk 0 calls sent bytes h.chunks (omega (arith, h.counted)) h.aligned n;
  counted = omega (
    arith,
    h.counted,
    ap length (bytes_of-snoc calls sent bytes),
    length-append (bytes_of calls) bytes,
  );
  aligned = omega (arith, h.aligned, h.chunk_aligned);
  chunk_aligned = h.chunk_aligned;
  chunk_pos = h.chunk_pos;
}

-- What the loop leaves: whole chunks are handed over in order, and less than one is left.
pub record ChunksSent (b : BlockBuffer) (calls : Calls) (rest : List ℕ)
    (r : BlockBuffer × Calls × List ℕ × Option SinkError) : Type 0 where
  pub frame : r.0 ≡ record b { sent = r.0.sent }
  pub handed : HandedOver b.chunk r.0.sent r.1
  pub same_bytes : bytes_of r.1 ++ r.2 ≡ bytes_of calls ++ rest
  pub short : length r.2 < b.chunk
  pub accepted : r.3 ≡ none

cut_bytes :
    (b : BlockBuffer) (calls : Calls) (rest : List ℕ)
    → bytes_of (calls ++ (b.sent, take b.chunk rest) ∷ []) ++ drop b.chunk rest
      ≡ bytes_of calls ++ rest
cut_bytes b calls rest = rw (bytes_of-snoc calls b.sent (take b.chunk rest)) (
    append_assoc (bytes_of calls) (take b.chunk rest) (drop b.chunk rest)
    ∙ ap (λ t. bytes_of calls ++ t) (take-append-drop b.chunk rest))

pub send_chunks-ChunksSent :
    (fuel : ℕ) (b : BlockBuffer) (calls : Calls) (rest : List ℕ)
    → HandedOver b.chunk b.sent calls
    → length rest ≤ fuel
    → ChunksSent b calls rest (send_chunks record_call fuel b calls rest)
unfolding send_chunks
send_chunks-ChunksSent zero b calls rest h f = record {
  frame = refl;
  handed = h;
  same_bytes = refl;
  short = omega (arith, h.chunk_pos);
  accepted = refl;
}
send_chunks-ChunksSent (suc fuel) b calls rest h f = elim (Bool-cases (leb b.chunk (length rest))) [
  | inr e ↦
      rw (e, send_chunks)
        (record {
          frame = refl;
          handed = h;
          same_bytes = refl;
          short = ground arith;
          accepted = refl;
        })
  | inl e ↦
      rw (e, send_chunks)
        (let n : length (take b.chunk rest) ≡ b.chunk =
            omega (arith, length-take b.chunk rest, leb→le b.chunk (length rest) e) in
          let b' = record b { sent = b.sent + b.chunk } in
          let ih =
            send_chunks-ChunksSent fuel b' (calls ++ (b.sent, take b.chunk rest) ∷ [])
              (drop b.chunk rest) (send-HandedOver b.chunk b.sent calls (take b.chunk rest) h n)
              (omega (arith, length-drop b.chunk rest, h.chunk_pos)) in
          record {
            frame = ih.frame;
            handed = ih.handed;
            same_bytes = ih.same_bytes ∙ cut_bytes b calls rest;
            short = ih.short;
            accepted = ih.accepted;
          })
]
