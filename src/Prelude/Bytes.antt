-- ===== src/Prelude/Bytes.antt =====
-- Big-endian byte fields: `to_be_bytes` and `from_be_bytes` of an unsigned integer of `w` bytes.
use Prim.Native.Nat.{ℕ, zero, suc, ◌+◌, ◌-◌, ◌*◌, ◌/◌, ◌%◌, ◌^◌, ◌<◌, ◌≤◌}
use mathlib.Core.Path.{◌≡◌, refl, sym, ap, ap₂, ◌∙◌}
use mathlib.Core.List.{List, [], ◌∷◌}
use native.Mathlib.Nat.{pow-suc, div-div-eq-div-mul, div-eq_of_lt}
use native.Mathlib.Omega.{arith}
use elasticdms_desktop.Prelude.Lists.{
  length, All, take, drop, length-take, length-drop, All-take, All-drop,
}

unfoldable pub be_bytes : ℕ → ℕ → List ℕ
be_bytes zero v = []
be_bytes (suc w) v = (v / 256 ^ w % 256) ∷ be_bytes w v

unfoldable pub from_be : ℕ → List ℕ → ℕ
from_be acc [] = acc
from_be acc (b ∷ bs) = from_be (acc * 256 + b) bs

unfoldable pub from_be_bytes : List ℕ → ℕ
unfolding from_be
from_be_bytes bs = from_be 0 bs

-- `&bytes[of..until]`
abbrev pub slice {ℓ} : {A : Type ℓ} → ℕ → ℕ → List A → List A
slice of until xs = take (until - of) (drop of xs)

pub length-be_bytes : (w v : ℕ) → length (be_bytes w v) ≡ w
unfolding be_bytes
length-be_bytes zero v = refl
length-be_bytes (suc w) v = ap suc (length-be_bytes w v)

shift-suc : (v w : ℕ) → v / 256 ^ suc w ≡ v / 256 ^ w / 256
shift-suc v w = ap (λ (t : ℕ). v / t) (pow-suc 256 w) ∙ sym (div-div-eq-div-mul v (256 ^ w) 256)

from_be-be_bytes : (w v : ℕ) → from_be (v / 256 ^ w) (be_bytes w v) ≡ v
unfolding be_bytes from_be
from_be-be_bytes zero v = omega arith
from_be-be_bytes (suc w) v =
    ap (λ (t : ℕ). from_be t (be_bytes w v)) {x = v / 256 ^ suc w * 256 + v / 256 ^ w % 256}
      {y = v / 256 ^ w} (omega (arith, shift-suc v w))
    ∙ from_be-be_bytes w v

-- A value that fits the width is read back from its bytes.
pub from_be_bytes-be_bytes : (w v : ℕ) → v < 256 ^ w → from_be_bytes (be_bytes w v) ≡ v
unfolding from_be_bytes
from_be_bytes-be_bytes w v h =
    ap (λ (t : ℕ). from_be t (be_bytes w v)) (sym (div-eq_of_lt h)) ∙ from_be-be_bytes w v

abbrev pub IsByte : ℕ → Type 0
IsByte b = b < 256

be_bytes-from_be :
    (acc : ℕ) (bs : List ℕ)
    → All IsByte bs
    → (from_be acc bs / 256 ^ length bs ≡ acc) × (be_bytes (length bs) (from_be acc bs) ≡ bs)
unfolding be_bytes from_be
be_bytes-from_be acc [] h = (omega arith, refl)
be_bytes-from_be acc (b ∷ bs) h =
    let (top, text) = be_bytes-from_be (acc * 256 + b) bs h.1 in
    (
      omega (arith, shift-suc (from_be (acc * 256 + b) bs) (length bs)),
      ap₂ (λ (d : ℕ) (s : List ℕ). d ∷ s) (omega arith) text,
    )

-- Bytes that are read are those of the value read.
pub be_bytes-from_be_bytes :
    (bs : List ℕ) → All IsByte bs → be_bytes (length bs) (from_be_bytes bs) ≡ bs
unfolding from_be_bytes
be_bytes-from_be_bytes bs h = (be_bytes-from_be 0 bs h).1

-- The field of `n` bytes at place `k`.
pub be_bytes-slice :
    (k n : ℕ) (bs : List ℕ)
    → All IsByte bs
    → k + n ≤ length bs
    → be_bytes n (from_be_bytes (take n (drop k bs))) ≡ take n (drop k bs)
be_bytes-slice k n bs h fits =
    ap (λ (w : ℕ). be_bytes w (from_be_bytes (take n (drop k bs)))) {x = n}
      {y = length (take n (drop k bs))} (omega (arith, length-take n (drop k bs), length-drop k bs))
    ∙ be_bytes-from_be_bytes (take n (drop k bs))
        (All-take IsByte n (drop k bs) (All-drop IsByte k bs h))
