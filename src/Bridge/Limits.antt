-- ===== src/Bridge/Limits.antt =====
-- crates/bridge/src/frame.rs: what the limits keep out.
use elasticdms_desktop.Prelude.{
  ℕ, zero, suc, ◌+◌, ◌≤◌, ◌≡◌, max, sym, inl, inr, Bool, true, List, ◌++◌, arith, ltb, length, take,
  drop, ok, length-append, length-take, >>=-eq-ok, Result, ◌==◌, ap, from_be_bytes, [], Bool-cases,
}
use elasticdms_desktop.Bridge.Frame.{
  max_data_chunk, offset_bytes, ReadError, Limit, Header, json, part, chunk, Inbox, message, piece,
  read_exactly, check_kind, read_kind_and_check, is_nonempty, collect, read_frame, read_piece,
  read_from, read_inbox,
}

-- A message within the limit, or a chunk of at most 256 KiB where chunks may arrive
pub IsWithin : Limit → Inbox → Type 0
IsWithin limit (message bytes) = length bytes ≤ max limit.message limit.json
IsWithin limit (piece offset bytes) = (limit.chunks ≡ true) × (length bytes ≤ max_data_chunk)

-- What a header allows to be read
Allows : Limit → Header → Type 0
Allows limit (json n) = n ≤ limit.json
Allows limit (part n) = n ≤ limit.json
Allows limit (chunk n) = (limit.chunks ≡ true) × (n ≤ max_data_chunk)

ok_first {ℓ} :
    {A : Type ℓ} {a : A} {rest : List ℕ} {p : A × List ℕ}
    → Path (Result ReadError (A × List ℕ)) (ok (a, rest)) (ok p)
    → a ≡ p.0
ok_first {p = (b, later)} h = cc

read_exactly-length :
    (n : ℕ) (source : List ℕ) (read : List ℕ × List ℕ)
    → read_exactly n source ≡ ok read
    → length (read.0) ≤ n
unfolding read_exactly
read_exactly-length n source read h = elim (Bool-cases (ltb (length source) n)) [
  | inl few ↦ cc (rw (few) at h)
  | inr enough ↦
      let taken : (take n source, drop n source) ≡ read = cc (rw (enough) at h) in
      omega (arith, length-take n source, ap (λ (r : List ℕ × List ℕ). length (r.0)) taken)
]

check_kind-Allows :
    (limit : Limit) (mid_message : Bool) (kind payload : ℕ) (header : Header)
    → check_kind limit mid_message kind payload ≡ ok header
    → Allows limit header
unfolding check_kind Allows
check_kind-Allows limit mid_message kind payload (json n) h = ground arith
check_kind-Allows limit mid_message kind payload (part n) h = ground arith
check_kind-Allows limit mid_message kind payload (chunk n) h = (ground arith, ground arith)

collect-within :
    (limit : Limit) (collected : List ℕ) (n : ℕ) (source : List ℕ) (read : List ℕ × List ℕ)
    → collect limit collected n source ≡ ok read
    → length (read.0) ≤ max limit.message limit.json
collect-within limit collected n source read h =
    elim (Bool-cases (ltb (max limit.message limit.json) (length collected + n))) [
      | inl large ↦ cc (rw (large) at h)
      | inr fits ↦
          let (one, first, same) = >>=-eq-ok (read_exactly n source) _ (rw (fits) at h) in
          let within : length collected + n ≤ max limit.message limit.json = ground arith in
          let short = read_exactly-length n source one first in
          let whole : collected ++ one.0 ≡ read.0 = ok_first same in
          omega (arith, length-append collected (one.0), ap (λ r. length r) whole)
    ]

header-Allows :
    (limit : Limit) (mid_message : Bool) (source : List ℕ) (header : Header × List ℕ)
    → read_kind_and_check limit mid_message source ≡ ok header
    → Allows limit (header.0)
unfolding read_kind_and_check
header-Allows limit mid_message source header h =
    let (read, _, rest) = >>=-eq-ok (read_exactly 5 source) _ h in
    elim (Bool-cases (from_be_bytes (take 4 (read.0)) == 0)) [
      | inl empty ↦ cc (rw (empty) at rest)
      | inr counted ↦
          let (kind, checked, same) =
            >>=-eq-ok (check_kind limit mid_message _ _) _ (rw (counted) at rest) in
          let heads : kind ≡ header.0 = ok_first same in
          rw (sym heads) (check_kind-Allows limit mid_message _ _ kind checked)
    ]

read_piece-IsWithin :
    (limit : Limit) (n : ℕ) (source : List ℕ) (inbox : Inbox) (rest : List ℕ)
    → Allows limit (chunk n)
    → read_piece n source ≡ ok (inbox, rest)
    → IsWithin limit inbox
unfolding Allows IsWithin
read_piece-IsWithin limit n source inbox rest (chunks, small) h =
    let (offset, _, later) = >>=-eq-ok (read_exactly offset_bytes source) _ h in
    let (bytes, read, same) = >>=-eq-ok (read_exactly n (offset.1)) _ later in
    let short = read_exactly-length n (offset.1) bytes read in
    let is : piece (from_be_bytes (offset.0)) (bytes.0) ≡ inbox = ok_first same in
    rw (sym is) (chunks, omega arith)

-- What a frame gives, when what is read later is within the limit
read_frame-IsWithin :
    (limit : Limit) (collected : List ℕ)
    (again : List ℕ → List ℕ → Result ReadError (Inbox × List ℕ)) (header : Header)
    (source : List ℕ) (inbox : Inbox) (rest : List ℕ)
    → ((c later : List ℕ) → again c later ≡ ok (inbox, rest) → IsWithin limit inbox)
    → Allows limit header
    → read_frame limit collected again (header, source) ≡ ok (inbox, rest)
    → IsWithin limit inbox
unfolding IsWithin
read_frame-IsWithin limit collected again (json n) source inbox rest keeps allows h =
    let (one, first, same) = >>=-eq-ok (collect limit collected n source) _ h in
    let is : message (one.0) ≡ inbox = ok_first same in
    rw (sym is) (collect-within limit collected n source one first)
read_frame-IsWithin limit collected again (part n) source inbox rest keeps allows h =
    let (one, first, next) = >>=-eq-ok (collect limit collected n source) _ h in
    keeps (one.0) (one.1) next
read_frame-IsWithin limit collected again (chunk n) source inbox rest keeps allows h =
    read_piece-IsWithin limit n source inbox rest allows h

read_from-IsWithin :
    (rounds : ℕ) (limit : Limit) (collected source : List ℕ) (inbox : Inbox) (rest : List ℕ)
    → read_from rounds limit collected source ≡ ok (inbox, rest)
    → IsWithin limit inbox
unfolding read_from
read_from-IsWithin zero limit collected source inbox rest h = cc
read_from-IsWithin (suc rounds) limit collected source inbox rest h =
    let (header, first, next) =
      >>=-eq-ok (read_kind_and_check limit (is_nonempty collected) source) _ h in
    read_frame-IsWithin limit collected _ (header.0) (header.1) inbox rest
      (λ c later. read_from-IsWithin rounds limit c later inbox rest)
      (header-Allows limit (is_nonempty collected) source header first) next

-- Whatever arrives, a message that `read_inbox` gives has at most the size that the limit allows,
-- and a data chunk that it gives has at most 256 KiB and may arrive there.
pub read_inbox-IsWithin :
    (limit : Limit) (source : List ℕ) (inbox : Inbox) (rest : List ℕ)
    → read_inbox limit source ≡ ok (inbox, rest)
    → IsWithin limit inbox
unfolding read_inbox
read_inbox-IsWithin limit source inbox rest h =
    read_from-IsWithin (suc (length source)) limit [] source inbox rest h
