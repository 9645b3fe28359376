-- ===== src/Bridge/Chunks.antt =====
-- crates/bridge/src/frame.rs: data chunks.
use elasticdms_desktop.Prelude.{
  ℕ, ◌+◌, ◌-◌, ◌^◌, ◌≤◌, ◌<◌, ◌≡◌, refl, ap, ◌∙◌, true, false, List, ◌∷◌, ◌++◌, append_assoc, arith,
  ltb, length, ok, be_bytes, length-be_bytes, length-append, from_be_bytes-be_bytes,
}
use elasticdms_desktop.Bridge.Frame.{
  kind_data, max_data_chunk, content, chunk, piece, check_kind, read_piece, offset_bytes, read_from,
  read_inbox, write_frame, write_data,
}
use elasticdms_desktop.Bridge.Header.{read_header, read_exactly-front}

check_kind-chunk :
    (n : ℕ)
    → n ≤ max_data_chunk
    → check_kind content false kind_data (offset_bytes + n) ≡ ok (chunk n)
unfolding check_kind
check_kind-chunk n small =
    let offset_there : ltb (offset_bytes + n) offset_bytes ≡ false = ground arith in
    let rest : offset_bytes + n - offset_bytes ≡ n = omega arith in
    let fits : ltb max_data_chunk n ≡ false = ground arith in rw (offset_there, rest, fits) refl

read_piece_lem :
    (offset : ℕ) (bytes tail : List ℕ)
    → offset < 2 ^ 64
    → read_piece (length bytes) ((be_bytes 8 offset ++ bytes) ++ tail)
      ≡ ok (piece offset bytes, tail)
read_piece_lem offset bytes tail h =
    rw
      (
        append_assoc (be_bytes 8 offset) bytes tail,
        read_exactly-front 8 (be_bytes 8 offset) (bytes ++ tail) (length-be_bytes 8 offset),
        read_exactly-front (length bytes) bytes tail refl,
        from_be_bytes-be_bytes 8 offset h,
      )
      refl

-- A data chunk of at most 256 KiB with a 64-bit offset is written, and from the written bytes,
-- whatever follows them, it is read back where content may arrive, and what follows is left.
pub read_inbox-write_data :
    (offset : ℕ) (bytes tail : List ℕ)
    → offset < 2 ^ 64
    → length bytes ≤ max_data_chunk
    → (sent : List ℕ) × (write_data offset bytes ≡ ok sent)
      × (read_inbox content (sent ++ tail) ≡ ok (piece offset bytes, tail))
unfolding write_data read_inbox read_from write_frame
read_inbox-write_data offset bytes tail h small =
    let payload = be_bytes 8 offset ++ bytes in
    let size : length payload ≡ offset_bytes + length bytes =
      length-append (be_bytes 8 offset) bytes
      ∙ ap (λ t. t + length bytes) (length-be_bytes 8 offset) in
    let allowed : ltb max_data_chunk (length bytes) ≡ false = ground arith in
    let fits : ltb (1 + length payload) (2 ^ 32) ≡ true = ground arith in
    (
      be_bytes 4 (1 + length payload) ++ kind_data ∷ payload,
      rw (allowed, fits) refl,
      rw
          (
            read_header content false kind_data payload tail (omega arith),
            size,
            check_kind-chunk (length bytes) small,
            read_piece_lem offset bytes tail h,
          )
          refl,
    )
