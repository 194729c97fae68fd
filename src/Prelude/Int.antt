-- ===== src/Prelude/Int.antt =====
-- Signed integers over the native numbers, under the library's names.
use Prim.Native.Nat.{ℕ}
use mathlib.Core.Bool.{Bool, true, false}
use openbao_plugin_secrets_s.Prelude.Tests.{leb, ltb}

-- `negsuc n` is -(n + 1).
pub data ℤ : Type 0 where
  pos : ℕ → ℤ
  negsuc : ℕ → ℤ

-- The value of an integer that is not negative, and 0 for another.
abbrev pub pos_part : ℤ → ℕ
pos_part (pos n) = n
pos_part (negsuc _) = 0

abbrev pub is_negative : ℤ → Bool
is_negative (pos _) = false
is_negative (negsuc _) = true

-- `n <= x`, for a bound that is not negative.
abbrev pub at_least : ℕ → ℤ → Bool
at_least n (pos m) = leb n m
at_least n (negsuc _) = false

abbrev pub ltb_int : ℤ → ℤ → Bool
ltb_int (pos m) (pos n) = ltb m n
ltb_int (pos _) (negsuc _) = false
ltb_int (negsuc _) (pos _) = true
ltb_int (negsuc m) (negsuc n) = ltb n m
