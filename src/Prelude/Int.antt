-- ===== src/Prelude/Int.antt =====
-- Signed integers over the native numbers, under the library's names: a JavaScript `BigInt`, and
-- a `number` that holds a whole value.
use Prim.Native.Nat.{ℕ, zero, suc}

-- `negsuc n` is -(n + 1).
pub data ℤ : Type 0 where
  pos : ℕ → ℤ
  negsuc : ℕ → ℤ

-- -n, for a natural number n
abbrev pub neg : ℕ → ℤ
neg zero = pos 0
neg (suc n) = negsuc n
