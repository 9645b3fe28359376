-- ===== src/Bridge/Parts.antt =====
-- crates/bridge/src/frame.rs: messages that are written whole or in parts.
use elasticdms_desktop.Prelude.{
  ℕ, zero, suc, ◌+◌, ◌^◌, ◌≤◌, ◌<◌, ◌≡◌, refl, ap, ◌∙◌, ltb→lt, inl, inr, Bool, true, false, List,
  [], ◌∷◌, ◌++◌, append_assoc, arith, ltb, length, take, drop, ok, be_bytes, length-be_bytes,
  length-append, length-take, length-drop, take-append-drop, Bool-cases,
}
use elasticdms_desktop.Bridge.Frame.{
  kind_json, kind_part, max_json_frame, max_message, reading, json, part, message, check_kind,
  is_nonempty, collect, read_from, read_inbox, write_frame, write_parts, write_json,
}
use elasticdms_desktop.Bridge.Header.{read_header, read_exactly-front}

check_kind-json :
    (chunks mid_message : Bool) (n : ℕ)
    → n ≤ max_json_frame
    → check_kind (reading chunks) mid_message kind_json n ≡ ok (json n)
unfolding check_kind
check_kind-json chunks mid_message n small =
    let fits : ltb max_json_frame n ≡ false = ground arith in rw (fits) refl

check_kind-part :
    (chunks mid_message : Bool) (n : ℕ)
    → n ≤ max_json_frame
    → check_kind (reading chunks) mid_message kind_part n ≡ ok (part n)
unfolding check_kind
check_kind-part chunks mid_message n small =
    let fits : ltb max_json_frame n ≡ false = ground arith in rw (fits) refl

collect_lem :
    (chunks : Bool) (collected payload tail : List ℕ)
    → length collected + length payload ≤ max_message
    → collect (reading chunks) collected (length payload) (payload ++ tail)
      ≡ ok (collected ++ payload, tail)
collect_lem chunks collected payload tail room =
    let fits : ltb max_message (length collected + length payload) ≡ false = ground arith in
    rw (fits, read_exactly-front (length payload) payload tail refl) refl

read_last :
    (chunks : Bool) (rounds : ℕ) (collected payload tail : List ℕ)
    → length payload ≤ max_json_frame
    → length collected + length payload ≤ max_message
    → read_from
        (suc rounds)
        (reading chunks)
        collected
        ((be_bytes 4 (1 + length payload) ++ kind_json ∷ payload) ++ tail)
      ≡ ok (message (collected ++ payload), tail)
unfolding read_from
read_last chunks rounds collected payload tail small room =
    rw
      (
        read_header (reading chunks) (is_nonempty collected) kind_json payload tail (omega arith),
        check_kind-json chunks (is_nonempty collected) (length payload) small,
        collect_lem chunks collected payload tail room,
      )
      refl

read_part :
    (chunks : Bool) (rounds : ℕ) (collected payload tail : List ℕ)
    → length payload ≤ max_json_frame
    → length collected + length payload ≤ max_message
    → read_from
        (suc rounds)
        (reading chunks)
        collected
        ((be_bytes 4 (1 + length payload) ++ kind_part ∷ payload) ++ tail)
      ≡ read_from rounds (reading chunks) (collected ++ payload) tail
unfolding read_from
read_part chunks rounds collected payload tail small room =
    rw
      (
        read_header (reading chunks) (is_nonempty collected) kind_part payload tail (omega arith),
        check_kind-part chunks (is_nonempty collected) (length payload) small,
        collect_lem chunks collected payload tail room,
      )
      refl

write_frame_lem :
    (kind : ℕ) (payload : List ℕ)
    → length payload ≤ max_json_frame
    → write_frame kind payload ≡ ok (be_bytes 4 (1 + length payload) ++ kind ∷ payload)
unfolding write_frame
write_frame_lem kind payload small =
    let fits : ltb (1 + length payload) (2 ^ 32) ≡ true = ground arith in rw (fits) refl

-- What a reader makes of bytes, whatever it collected before and whatever follows.
IsRead : Bool → List ℕ → List ℕ → Type 0
IsRead chunks bytes rest =
    (rounds : ℕ) (collected tail : List ℕ)
    → length bytes ≤ rounds
    → length collected + length rest ≤ max_message
    → read_from (suc rounds) (reading chunks) collected (bytes ++ tail)
      ≡ ok (message (collected ++ rest), tail)

-- The bytes of a run of `write_parts`, which are read back.
Sent : Bool → ℕ → List ℕ → Type 0
Sent chunks rounds rest =
    (bytes : List ℕ) × (write_parts rounds rest ≡ ok bytes) × IsRead chunks bytes rest

last-IsRead :
    (chunks : Bool) (rest : List ℕ)
    → length rest ≤ max_json_frame
    → IsRead chunks (be_bytes 4 (1 + length rest) ++ kind_json ∷ rest) rest
unfolding IsRead
last-IsRead chunks rest small rounds collected tail enough room =
    read_last chunks rounds collected rest tail small room

length-frame :
    (kind : ℕ) (payload later : List ℕ)
    → length ((be_bytes 4 (1 + length payload) ++ kind ∷ payload) ++ later)
      ≡ 5 + length payload + length later
length-frame kind payload later = omega (
  arith,
  length-append (be_bytes 4 (1 + length payload) ++ kind ∷ payload) later,
  length-append (be_bytes 4 (1 + length payload)) (kind ∷ payload),
  length-be_bytes 4 (1 + length payload),
)

part-IsRead :
    (chunks : Bool) (payload later rest : List ℕ)
    → length payload ≤ max_json_frame
    → IsRead chunks later rest
    → IsRead chunks
        ((be_bytes 4 (1 + length payload) ++ kind_part ∷ payload) ++ later)
        (payload ++ rest)
unfolding IsRead
part-IsRead chunks payload later rest small reads zero collected tail enough room =
    absurd (omega (arith, length-frame kind_part payload later))
part-IsRead chunks payload later rest small reads (suc rounds) collected tail enough room =
    let frame = be_bytes 4 (1 + length payload) ++ kind_part ∷ payload in
    let whole : length (payload ++ rest) ≡ length payload + length rest =
      length-append payload rest in
    let so_far : length (collected ++ payload) ≡ length collected + length payload =
      length-append collected payload in
    ap (read_from (suc (suc rounds)) (reading chunks) collected) (append_assoc frame later tail)
    ∙ read_part chunks (suc rounds) collected payload (later ++ tail) small (omega arith)
    ∙ reads rounds (collected ++ payload) tail (omega (arith, length-frame kind_part payload later))
        (omega arith)
    ∙ ap (λ t. ok (message t, tail)) (append_assoc collected payload rest)

Sent-lem :
    (chunks : Bool) (rounds : ℕ) (rest : List ℕ) → length rest ≤ rounds → Sent chunks rounds rest
unfolding write_parts Sent
Sent-lem chunks zero rest few =
    (_, write_frame_lem kind_json rest (omega arith), last-IsRead chunks rest (omega arith))
Sent-lem chunks (suc rounds) rest few = elim (Bool-cases (ltb max_json_frame (length rest))) [
  | inl large ↦
      let front = take max_json_frame rest in
      let many : max_json_frame < length rest = ltb→lt max_json_frame (length rest) large in
      let small : length front ≤ max_json_frame = omega (arith, length-take max_json_frame rest) in
      let later =
        Sent-lem chunks rounds (drop max_json_frame rest)
          (omega (arith, length-drop max_json_frame rest)) in
      (
        _,
        rw (large, write_frame_lem kind_part front small, later.1) refl,
        rw (take-append-drop max_json_frame rest) at
            (part-IsRead chunks front later.0 (drop max_json_frame rest) small later.2),
      )
  | inr whole ↦
      let small : length rest ≤ max_json_frame = ground arith in
      (_, rw (whole) (write_frame_lem kind_json rest small), last-IsRead chunks rest small)
]

-- A message of at most 64 MiB is written, whole or in parts, and from the written bytes, whatever
-- follows them, it is read back, and what follows is left; with data chunks allowed or not.
pub read_inbox-write_json :
    (chunks : Bool) (text tail : List ℕ)
    → length text ≤ max_message
    → (bytes : List ℕ) × (write_json text ≡ ok bytes)
      × (read_inbox (reading chunks) (bytes ++ tail) ≡ ok (message text, tail))
unfolding write_json read_inbox IsRead Sent
read_inbox-write_json chunks text tail fits =
    let sent = Sent-lem chunks (length text) text (omega arith) in
    let allowed : ltb max_message (length text) ≡ false = ground arith in
    (
      sent.0,
      rw (allowed) sent.1,
      sent.2 (length (sent.0 ++ tail)) [] tail (omega (arith, length-append sent.0 tail))
          (omega arith),
    )
