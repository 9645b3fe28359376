-- ===== src/Blocks/Stream.antt =====
-- crates/cfapi/src/blocks.rs: what the buffer and the calls so far hold.
use mathlib.Core.Path.{subst}
use elasticdms_desktop.Prelude.{
  ℕ, ◌+◌, ◌-◌, ◌^◌, ◌≤◌, ◌<◌, ◌≡◌, ◌⊎◌, refl, sym, ap, ◌∙◌, min, true, false, Option, none, some,
  List, [], ◌∷◌, ◌++◌, leb, ltb, ◌==◌, ==_iff, ne_of_==_false, length, take, drop, length-append,
  length-take, length-drop, take-append-drop, append-nil, append_assoc, arith, Bool-cases, inl, inr,
  Result, ok,
}
use elasticdms_desktop.Blocks.{
  BlockBuffer, BlockError, SinkError, fill, send_chunks, then_chunks, keep_rest, take_chunk,
  is_empty,
}
use elasticdms_desktop.Blocks.Chunks.{
  Calls, record_call, bytes_of, bytes_of-snoc, HandedOver, send-HandedOver, ChunksSent,
  send_chunks-ChunksSent,
}

-- The buffer and the calls so far hold the content `content`.
pub record Holds (b : BlockBuffer) (calls : Calls) (content : List ℕ) : Type 0 where
  pub handed : HandedOver b.chunk b.sent calls
  pub bytes : bytes_of calls ++ b.buffer ≡ content
  pub received : b.received ≡ length content
  pub short : length b.buffer < b.chunk
  pub fits : b.received ≤ b.total
  pub running : b.completed ≡ false

-- What filling the buffer leaves: a buffer without content, or no data.
record Filled (b : BlockBuffer) (calls : Calls) (block : List ℕ)
    (r : BlockBuffer × Calls × List ℕ × Option SinkError) : Type 0 where
  frame : r.0 ≡ record b { sent = r.0.sent; buffer = r.0.buffer }
  handed : HandedOver b.chunk r.0.sent r.1
  same_bytes : bytes_of r.1 ++ (r.0.buffer ++ r.2) ≡ bytes_of calls ++ (b.buffer ++ block)
  short : length r.0.buffer < b.chunk
  one_empty : (r.0.buffer ≡ []) ⊎ (r.2 ≡ [])
  accepted : r.3 ≡ none

pub empty_of_length : (xs : List ℕ) → length xs ≡ 0 → xs ≡ []
empty_of_length [] h = refl
empty_of_length (x ∷ xs) h = absurd (omega arith)

joined :
    (buffer block : List ℕ) (cut : ℕ) → buffer ++ take cut block ++ drop cut block ≡ buffer ++ block
joined buffer block cut =
    append_assoc buffer (take cut block) (drop cut block)
    ∙ ap (λ t. buffer ++ t) (take-append-drop cut block)

filled_length :
    (b : BlockBuffer) (block : List ℕ)
    → let cut = min (b.chunk - length b.buffer) (length block) in
      length (b.buffer ++ take cut block) ≡ length b.buffer + cut
filled_length b block =
    let cut = min (b.chunk - length b.buffer) (length block) in
    omega (arith, length-append b.buffer (take cut block), length-take cut block)

fill-Filled :
    (b : BlockBuffer) (calls : Calls) (block : List ℕ)
    → HandedOver b.chunk b.sent calls
    → length b.buffer < b.chunk
    → Filled b calls block (fill record_call b calls block)
unfolding fill
fill-Filled b calls block h s = elim (Bool-cases (is_empty b.buffer)) [
  | inl e ↦
      rw (e, fill)
        (record {
          frame = refl;
          handed = h;
          same_bytes = refl;
          short = s;
          one_empty = inl (empty_of_length b.buffer ((==_iff _ 0).0 e));
          accepted = refl;
        })
  | inr e ↦
      let cut = min (b.chunk - length b.buffer) (length block) in
      elim (Bool-cases (length (b.buffer ++ take cut block) == b.chunk)) [
        | inr n ↦
            rw (e, fill)
              (rw n (record {
                frame = refl;
                handed = h;
                same_bytes = ap (λ t. bytes_of calls ++ t) (joined b.buffer block cut);
                short = omega (arith, filled_length b block, ne_of_==_false _ _ n);
                one_empty = inr (
                    empty_of_length (drop cut block) (
                      omega (
                        arith,
                        filled_length b block,
                        ne_of_==_false _ _ n,
                        length-drop cut block,
                      )));
                accepted = refl;
              }))
        | inl n ↦
            rw (e, fill)
              (rw n (record {
                frame = refl;
                handed =
                    send-HandedOver b.chunk b.sent calls (b.buffer ++ take cut block) h
                      ((==_iff _ _).0 n);
                same_bytes = rw (bytes_of-snoc calls b.sent (b.buffer ++ take cut block)) (
                    append_assoc (bytes_of calls) (b.buffer ++ take cut block) (drop cut block)
                    ∙ ap (λ t. bytes_of calls ++ t) (joined b.buffer block cut));
                short = h.chunk_pos;
                one_empty = inl refl;
                accepted = refl;
              }))
      ]
]

-- The loop behind a filled buffer, and what is kept.
pub record Taken (b : BlockBuffer) (calls : Calls) (content : List ℕ)
    (r : BlockBuffer × Calls × Result BlockError (Unit {0})) : Type 0 where
  pub answer : r.2 ≡ ok tt
  pub same_total : r.0.total ≡ b.total
  pub same_chunk : r.0.chunk ≡ b.chunk
  pub holds : Holds r.0 r.1 content

module _ (b : BlockBuffer) (calls : Calls) (content : List ℕ)
    (received : b.received ≡ length content) (fits : b.received ≤ b.total)
    (running : b.completed ≡ false) where
  -- A buffer like `b` but for what was sent, with `kept` in it.
  kept-Taken :
      (b₁ : BlockBuffer) (calls₁ : Calls) (kept : List ℕ)
      → b₁ ≡ record b { sent = b₁.sent; buffer = b₁.buffer }
      → HandedOver b.chunk b₁.sent calls₁
      → bytes_of calls₁ ++ kept ≡ content
      → length kept < b.chunk
      → Taken b calls content (record b₁ { buffer = kept }, calls₁, ok tt)
  kept-Taken b₁ calls₁ kept frame handed bytes short =
      let same_chunk : b₁.chunk ≡ b.chunk = ap (λ (x : BlockBuffer). x.chunk) frame in
      let same_total : b₁.total ≡ b.total = ap (λ (x : BlockBuffer). x.total) frame in
      let same_received : b₁.received ≡ b.received = ap (λ (x : BlockBuffer). x.received) frame in
      record {
        answer = refl;
        same_total = same_total;
        same_chunk = same_chunk;
        holds = record {
          handed = subst (λ (k : ℕ). HandedOver k b₁.sent calls₁) (sym same_chunk) handed;
          bytes = bytes;
          received = same_received ∙ received;
          short = omega arith;
          fits = omega arith;
          running = ap (λ (x : BlockBuffer). x.completed) frame ∙ running;
        };
      }

  -- The loop from an empty buffer.
  chunks-Taken :
      (b₁ : BlockBuffer) (calls₁ : Calls) (rest : List ℕ)
      (r : BlockBuffer × Calls × List ℕ × Option SinkError)
      → b₁ ≡ record b { sent = b₁.sent; buffer = b₁.buffer }
      → b₁.buffer ≡ []
      → bytes_of calls₁ ++ rest ≡ content
      → ChunksSent b₁ calls₁ rest r
      → Taken b calls content (keep_rest record_call r)
  chunks-Taken b₁ calls₁ rest (b₂, calls₂, rest₂, some e) frame empty bytes sent =
      absurd (cc sent.accepted)
  chunks-Taken b₁ calls₁ rest (b₂, calls₂, rest₂, none) frame empty bytes sent =
      let same_chunk : b₁.chunk ≡ b.chunk = ap (λ (x : BlockBuffer). x.chunk) frame in
      let no_buffer : b₂.buffer ≡ [] = ap (λ (x : BlockBuffer). x.buffer) sent.frame ∙ empty in
      rw no_buffer (
        kept-Taken b₂ calls₂ rest₂
          (sent.frame ∙ λ i. record (frame i) {
            sent = b₂.sent;
            buffer = sym (ap (λ (x : BlockBuffer). x.buffer) sent.frame) i;
          })
          (subst (λ (k : ℕ). HandedOver k b₂.sent calls₂) same_chunk sent.handed)
          (sent.same_bytes ∙ bytes) (omega (arith, sent.short)))

  then_chunks-Taken :
      (block : List ℕ) (r : BlockBuffer × Calls × List ℕ × Option SinkError)
      → Filled b calls block r
      → bytes_of calls ++ (b.buffer ++ block) ≡ content
      → Taken b calls content (keep_rest record_call (then_chunks record_call r))
  unfolding send_chunks
  then_chunks-Taken block (b₁, calls₁, rest, some e) f c = absurd (cc f.accepted)
  then_chunks-Taken block (b₁, calls₁, rest, none) f c = elim f.one_empty [
    | inl e ↦
        chunks-Taken b₁ calls₁ rest (send_chunks record_call (length rest) b₁ calls₁ rest) f.frame e
          (ap (λ (t : List ℕ). bytes_of calls₁ ++ (t ++ rest)) (sym e) ∙ f.same_bytes ∙ c)
          (send_chunks-ChunksSent (length rest) b₁ calls₁ rest
            (subst (λ (k : ℕ). HandedOver k b₁.sent calls₁)
              (sym (ap (λ (x : BlockBuffer). x.chunk) f.frame)) f.handed)
            (omega arith))
    | inr e ↦ rw e (
        kept-Taken b₁ calls₁ (b₁.buffer ++ []) f.frame f.handed
          (ap (λ (t : List ℕ). bytes_of calls₁ ++ (b₁.buffer ++ t)) (sym e) ∙ f.same_bytes ∙ c)
          (rw (append-nil b₁.buffer) f.short))
  ]

-- `take` with the next piece, which fits the file: the callback gets every whole chunk that is
-- complete by then, in order and aligned, and the buffer keeps the rest.
pub take_chunk-Taken :
    (b : BlockBuffer) (calls : Calls) (content block : List ℕ)
    → b.total < 2 ^ 64
    → Holds b calls content
    → length content + length block ≤ b.total
    → Taken b calls (content ++ block) (take_chunk record_call b calls (length content) block)
unfolding take_chunk
take_chunk-Taken b calls content block w h room =
    let until = length content + length block in
    let b' = record b { received = until } in
    let next : (length content == b.received) ≡ true = (==_iff _ _).1 (sym h.received) in
    let no_wrap : leb (2 ^ 64) until ≡ false = ground arith in
    let no_end : ltb b.total until ≡ false = ground arith in
    let taken =
      then_chunks-Taken b' calls (content ++ block) (sym (length-append content block)) room
        h.running block (fill record_call b' calls block)
        (fill-Filled b' calls block h.handed h.short)
        (sym (append_assoc (bytes_of calls) b.buffer block) ∙ ap (λ t. t ++ block) h.bytes) in
    rw (next, take_chunk)
      (rw (no_wrap, no_end)
        (record {
          answer = taken.answer;
          same_total = taken.same_total;
          same_chunk = taken.same_chunk;
          holds = taken.holds;
        }))
