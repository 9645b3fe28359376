-- ===== src/Blocks/Whole.antt =====
-- crates/cfapi/src/blocks.rs: `complete`, refused pieces, and a whole download.
use mathlib.Core.Path.{subst}
use elasticdms_desktop.Prelude.{
  ℕ, ◌+◌, ◌-◌, ◌^◌, ◌≤◌, ◌<◌, ◌≡◌, ◌≢◌, ◌⊎◌, refl, sym, ap, ◌∙◌, true, false, not, ◌&&◌, ◌||◌,
  Option, List, [], ◌∷◌, ◌++◌, leb, ◌==◌, lt→ltb, ==_iff, length, length-append, append-nil,
  append_assoc, arith, Bool-cases, inl, inr, Result, ok, err,
}
use elasticdms_desktop.Blocks.{
  BlockBuffer, BlockError, gap, over_end, SinkError, with_chunk_size, take_chunk, complete,
  is_empty,
}
use elasticdms_desktop.Blocks.Chunks.{Calls, record_call, bytes_of, AreChunks, bytes_of-snoc}
use elasticdms_desktop.Blocks.Stream.{Holds, Taken, take_chunk-Taken, empty_of_length}

-- A piece that leaves a gap, or that would end behind the end of the file or of `u64`, is refused
-- with that reason and changes nothing, whatever the callback.
pub take_chunk_refused :
    {S : Type 0} (output : S → ℕ → List ℕ → S × Option SinkError) (b : BlockBuffer) (s : S)
    (offset : ℕ) (block : List ℕ)
    → (offset ≢ b.received
        → take_chunk output b s offset block ≡ (b, s, err (gap b.received offset)))
      × (offset ≡ b.received
          → b.total < offset + length block
          → offset + length block < 2 ^ 64
          → take_chunk output b s offset block
            ≡ (b, s, err (over_end (offset + length block) b.total)))
      × (offset ≡ b.received
          → 2 ^ 64 ≤ offset + length block
          → take_chunk output b s offset block ≡ (b, s, err (over_end (2 ^ 64 - 1) b.total)))
unfolding take_chunk
take_chunk_refused output b s offset block = (
  λ h. rw (not_equal offset b.received h, take_chunk),
  λ h p q. rw ((==_iff _ _).1 h, take_chunk) (rw (leb_false _ _ q, lt→ltb _ _ p)),
  λ h q. rw ((==_iff _ _).1 h, take_chunk) (rw (le→leb _ _ q)),
)
  where
    not_equal : (m n : ℕ) → m ≢ n → (m == n) ≡ false
    not_equal m n h = ground arith

    le→leb : (m n : ℕ) → m ≤ n → leb m n ≡ true
    le→leb m n h = ground arith

    leb_false : (m n : ℕ) → n < m → leb m n ≡ false
    leb_false m n h = ground arith

-- What completing hands over, once all content has come.
pub record Completed (b : BlockBuffer) (calls : Calls) (content : List ℕ)
    (r : BlockBuffer × Calls × Result BlockError ℕ) : Type 0 where
  pub answer : r.2 ≡ ok b.total
  pub all_bytes : bytes_of r.1 ≡ content
  -- At most one call is added, with what the buffer held, behind the chunks.
  pub last : (r.1 ≡ calls) ⊎ (r.1 ≡ calls ++ (b.sent, b.buffer) ∷ [])
  pub done : r.0.completed ≡ true
  pub frame : (r.0.received ≡ b.received) × (r.0.total ≡ b.total)

nothing_kept :
    (b : BlockBuffer)
    → b.completed ≡ false
    → (not b.completed && (not (is_empty b.buffer) || b.total == 0)) ≡ false
    → length b.buffer ≡ 0
nothing_kept b r e = ground arith

-- A buffer that holds the whole file completes: the callback has then received every byte, with at
-- most one more call, and the buffer says so.
pub complete-Completed :
    (b : BlockBuffer) (calls : Calls) (content : List ℕ)
    → Holds b calls content
    → length content ≡ b.total
    → Completed b calls content (complete record_call b calls)
unfolding complete
complete-Completed b calls content h n =
    let all : (b.received == b.total) ≡ true = (==_iff _ _).1 (h.received ∙ n) in
    elim (Bool-cases (not b.completed && (not (is_empty b.buffer) || b.total == 0))) [
      | inl e ↦
          rw (all, complete)
            (rw e (record {
              answer = refl;
              all_bytes = bytes_of-snoc calls b.sent b.buffer ∙ h.bytes;
              last = inr refl;
              done = refl;
              frame = (refl, refl);
            }))
      | inr e ↦
          rw (all, complete)
            (rw e (record {
              answer = refl;
              all_bytes =
                  sym (append-nil (bytes_of calls))
                  ∙ ap (λ t. bytes_of calls ++ t)
                      (sym (empty_of_length b.buffer (nothing_kept b h.running e)))
                  ∙ h.bytes;
              last = inl refl;
              done = refl;
              frame = (refl, refl);
            }))
    ]

-- Once completed, and with all bytes received, completing again hands nothing over, whatever the
-- callback, and answers the same.
pub complete_again :
    {S : Type 0} (output : S → ℕ → List ℕ → S × Option SinkError) (b : BlockBuffer) (s : S)
    → b.completed ≡ true
    → b.received ≡ b.total
    → complete output b s ≡ (b, s, ok b.total)
unfolding complete
complete_again output b s h n =
    rw ((==_iff _ _).1 n, complete)
      (rw (nothing_due b h) (λ i. (record b { completed = sym h i }, s, ok b.total)))
  where
    nothing_due :
        (b : BlockBuffer)
        → b.completed ≡ true
        → (not b.completed && (not (is_empty b.buffer) || b.total == 0)) ≡ false
    nothing_due b h = ground arith

-- The callers deliver the pieces of a download one after the other.
unfoldable pub deliver : BlockBuffer → Calls → List (List ℕ) → BlockBuffer × Calls
deliver b calls [] = (b, calls)
deliver b calls (piece ∷ pieces) =
    let (b', calls', answer) = take_chunk record_call b calls b.received piece in
    deliver b' calls' pieces

abbrev pub concat : List (List ℕ) → List ℕ
concat [] = []
concat (p ∷ ps) = p ++ concat ps

deliver-Holds :
    (b : BlockBuffer) (calls : Calls) (content : List ℕ) (pieces : List (List ℕ))
    → b.total < 2 ^ 64
    → Holds b calls content
    → length content + length (concat pieces) ≤ b.total
    → let r = deliver b calls pieces in
      Holds r.0 r.1 (content ++ concat pieces) × (r.0.total ≡ b.total) × (r.0.chunk ≡ b.chunk)
unfolding deliver
deliver-Holds b calls content [] w h room = (rw (append-nil content) h, refl, refl)
deliver-Holds b calls content (p ∷ ps) w h room =
    let r = take_chunk record_call b calls b.received p in
    let t : Taken b calls (content ++ p) r =
      subst (λ (o : ℕ). Taken b calls (content ++ p) (take_chunk record_call b calls o p))
        (sym h.received)
        (take_chunk-Taken b calls content p w h (omega (arith, length-append p (concat ps)))) in
    let ih =
      deliver-Holds r.0 r.1 (content ++ p) ps (rw t.same_total w) t.holds
        (omega (arith, t.same_total, length-append p (concat ps), length-append content p)) in
    (
      subst (λ (c : List ℕ). Holds (deliver r.0 r.1 ps).0 (deliver r.0 r.1 ps).1 c)
          (append_assoc content p (concat ps)) ih.0,
      ih.1 ∙ t.same_total,
      ih.2 ∙ t.same_chunk,
    )

-- What a completed delivery leaves, where `r` is the result and `content` the file.
pub record TakenOver (total chunk : ℕ) (content : List ℕ)
    (r : BlockBuffer × Calls × Result BlockError ℕ) : Type 0 where
  pub answer : r.2 ≡ ok total
  pub all_bytes : bytes_of r.1 ≡ content
  pub full : Calls
  pub chunks : AreChunks chunk 0 full
  pub last :
      (r.1 ≡ full)
      ⊎ ((rest : List ℕ) × (r.1 ≡ full ++ (length (bytes_of full), rest) ∷ [])
          × (length rest < chunk))

pub with_chunk_size-Holds :
    (total size : ℕ) → size ≤ 2 ^ 64 - 4096 → Holds (with_chunk_size total size) [] []
unfolding with_chunk_size bytes_of
with_chunk_size-Holds total size small = record {
  handed = record {
    chunks = tt;
    counted = refl;
    aligned = omega arith;
    chunk_aligned = omega arith;
    chunk_pos = omega arith;
  };
  bytes = refl;
  received = refl;
  short = omega arith;
  fits = omega arith;
  running = refl;
}

last_call :
    (total chunk : ℕ) (content : List ℕ) (b : BlockBuffer) (calls all : Calls)
    → Holds b calls content
    → b.chunk ≡ chunk
    → (all ≡ calls) ⊎ (all ≡ calls ++ (b.sent, b.buffer) ∷ [])
    → (all ≡ calls)
      ⊎ ((rest : List ℕ) × (all ≡ calls ++ (length (bytes_of calls), rest) ∷ [])
          × (length rest < chunk))
last_call total chunk content b calls all h c (inl e) = inl e
last_call total chunk content b calls all h c (inr e) = inr (
  b.buffer,
  e ∙ ap (λ (o : ℕ). calls ++ (o, b.buffer) ∷ []) h.handed.counted,
  omega (arith, h.short, c),
)

-- With a chunk size of at most 2^64 - 4096: a file of `total` bytes, `total` below 2^64, that is
-- delivered in pieces of any sizes and then completed is taken over: the callback, which accepts
-- every call, received exactly its bytes, in whole aligned chunks and at most one last shorter
-- call that begins where the chunks end.
pub download-TakenOver :
    (total size : ℕ) (pieces : List (List ℕ))
    → total < 2 ^ 64
    → size ≤ 2 ^ 64 - 4096
    → length (concat pieces) ≡ total
    → let b = with_chunk_size total size in
      let (b', calls) = deliver b [] pieces in
      TakenOver total b.chunk (concat pieces) (complete record_call b' calls)
unfolding with_chunk_size
download-TakenOver total size pieces w small n =
    let b = with_chunk_size total size in
    let (held, same_total, same_chunk) =
      deliver-Holds b [] [] pieces w (with_chunk_size-Holds total size small) (omega (arith, n)) in
    let r = deliver b [] pieces in
    let c = complete-Completed r.0 r.1 (concat pieces) held (n ∙ sym same_total) in
    record {
      answer = c.answer ∙ ap ok same_total;
      all_bytes = c.all_bytes;
      full = r.1;
      chunks = subst (λ (k : ℕ). AreChunks k 0 r.1) same_chunk held.handed.chunks;
      last = last_call total b.chunk (concat pieces) r.0 r.1 _ held same_chunk c.last;
    }
