-- ===== src/Prelude/Int.antt =====
-- Signed numbers, as far as an API error code is one: printed and compared with nothing.
use Prim.Native.Nat.{ℕ, suc}
use mathlib.Core.List.{◌++◌}
use cirrusync.Prelude.Strings.{Text, text, decimal}

-- `negsuc n` is -(n + 1).
pub data ℤ : Type 0 where
  pos : ℕ → ℤ
  negsuc : ℕ → ℤ

unfoldable pub signed : ℤ → Text
signed (pos n) = decimal n
signed (negsuc n) = text "-" ++ decimal (suc n)
