-- ===== src/Prelude/Int.antt =====
-- The signed `int` of C, as far as the library needs it: positions and their sign.
use Prim.Native.Nat.{ℕ}

-- `negsuc n` is -(n + 1).
pub data ℤ : Type 0 where
  pos : ℕ → ℤ
  negsuc : ℕ → ℤ
