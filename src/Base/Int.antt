-- ===== src/Base/Int.antt =====
-- C++'s `int`, as a number or the negative of one; INT_MIN, whose negative does not exist, is left out.
use Prim.Native.Nat.{ℕ, suc}

pub data ℤ : Type 0 where
  pos negsuc : ℕ → ℤ

-- `kpp::abs` of kernel/lib/kpp/include/kpp/cmath.hpp.
unfoldable pub abs : ℤ → ℕ
abs (pos n) = n
abs (negsuc n) = suc n
