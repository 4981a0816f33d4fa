-- ===== src/Prelude/Int.antt =====
-- Signed numbers, over the native ones.
use Prim.Native.Nat.{ℕ, suc}

pub data ℤ : Type 0 where
  pos negsuc : ℕ → ℤ

-- How many of the numbers from 0 on are at most `i`.
abbrev pub rank : ℤ → ℕ
rank (pos i) = suc i
rank (negsuc _) = 0
