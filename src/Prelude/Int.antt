-- ===== src/Prelude/Int.antt =====
-- Signed integers over the native numbers, under the library's names: `negsuc n` is -(n + 1).
use Prim.Native.Nat.{ℕ, max, min}

pub data ℤ : Type 0 where
  pos : ℕ → ℤ
  negsuc : ℕ → ℤ

abbrev pub int_max : ℤ → ℤ → ℤ
int_max (pos a) (pos b) = pos (max a b)
int_max (pos a) (negsuc b) = pos a
int_max (negsuc a) (pos b) = pos b
int_max (negsuc a) (negsuc b) = negsuc (min a b)
