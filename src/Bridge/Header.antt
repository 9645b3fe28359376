-- ===== src/Bridge/Header.antt =====
-- crates/bridge/src/frame.rs: read_exactly and read_kind_and_check at the front of what was written.
use elasticdms_desktop.Prelude.{
  ℕ, suc, ◌+◌, ◌-◌, ◌^◌, ◌<◌, ◌≡◌, refl, sym, ap, ◌∙◌, Bool, false, List, [], ◌∷◌, ◌++◌, arith, ltb,
  ◌==◌, length, take, drop, get_or, ok, ◌>>=◌, be_bytes, from_be_bytes, length-be_bytes,
  length-append, from_be_bytes-be_bytes,
}
use elasticdms_desktop.Bridge.Frame.{
  Limit, read_exactly, check_kind, with_length, read_kind_and_check,
}

take-append_self : (xs ys : List ℕ) → take (length xs) (xs ++ ys) ≡ xs
take-append_self [] ys = refl
take-append_self (x ∷ xs) ys = ap (λ t. x ∷ t) (take-append_self xs ys)

drop-append_self : (xs ys : List ℕ) → drop (length xs) (xs ++ ys) ≡ ys
drop-append_self [] ys = refl
drop-append_self (x ∷ xs) ys = drop-append_self xs ys

-- Just what stands at the front is read.
pub read_exactly-front :
    (n : ℕ) (xs ys : List ℕ) → length xs ≡ n → read_exactly n (xs ++ ys) ≡ ok (xs, ys)
unfolding read_exactly
read_exactly-front n xs ys h =
    let enough : ltb (length (xs ++ ys)) (length xs) ≡ false =
      ground (arith, length-append xs ys) in
    rw (sym h, enough, take-append_self xs ys, drop-append_self xs ys) refl

append-shift :
    (xs : List ℕ) (kind : ℕ) (payload tail : List ℕ)
    → (xs ++ kind ∷ payload) ++ tail ≡ (xs ++ kind ∷ []) ++ (payload ++ tail)
append-shift [] kind payload tail = refl
append-shift (x ∷ xs) kind payload tail = ap (λ t. x ∷ t) (append-shift xs kind payload tail)

get_or-last : (xs : List ℕ) (kind : ℕ) → get_or (xs ++ kind ∷ []) (length xs) 0 ≡ kind
get_or-last [] kind = refl
get_or-last (x ∷ xs) kind = get_or-last xs kind

length-last : (xs : List ℕ) (kind : ℕ) → length (xs ++ kind ∷ []) ≡ suc (length xs)
length-last [] kind = refl
length-last (x ∷ xs) kind = ap suc (length-last xs kind)

with_length_lem :
    (limit : Limit) (mid_message : Bool) (bytes rest : List ℕ) (kind n : ℕ)
    → length bytes ≡ 4
    → from_be_bytes bytes ≡ 1 + n
    → with_length limit mid_message (bytes ++ kind ∷ [], rest)
      ≡ (check_kind limit mid_message kind n >>= λ h. ok (h, rest))
with_length_lem limit mid_message bytes rest kind n four value =
    let front : take 4 (bytes ++ kind ∷ []) ≡ bytes =
      rw (sym four) (take-append_self bytes (kind ∷ [])) in
    let fifth : get_or (bytes ++ kind ∷ []) 4 0 ≡ kind = rw (sym four) (get_or-last bytes kind) in
    let counted : (1 + n == 0) ≡ false = ground arith in
    let less : 1 + n - 1 ≡ n = omega arith in rw (front, value, fifth, counted, less) refl

-- The header of a frame that was written.
pub read_header :
    (limit : Limit) (mid_message : Bool) (kind : ℕ) (payload tail : List ℕ)
    → 1 + length payload < 2 ^ 32
    → read_kind_and_check limit mid_message
        ((be_bytes 4 (1 + length payload) ++ kind ∷ payload) ++ tail)
      ≡ (check_kind limit mid_message kind (length payload) >>= λ h. ok (h, payload ++ tail))
unfolding read_kind_and_check
read_header limit mid_message kind payload tail fits =
    let bytes = be_bytes 4 (1 + length payload) in
    rw
      (
        append-shift bytes kind payload tail,
        read_exactly-front 5 (bytes ++ kind ∷ []) (payload ++ tail)
            (length-last bytes kind ∙ ap suc (length-be_bytes 4 (1 + length payload))),
      )
      (with_length_lem limit mid_message bytes (payload ++ tail) kind (length payload)
        (length-be_bytes 4 (1 + length payload))
        (from_be_bytes-be_bytes 4 (1 + length payload) fits))
