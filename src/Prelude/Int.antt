-- ===== src/Prelude/Int.antt =====
-- Go's `int`, as an integer: the values stored are copied and compared, never added.
use Prim.Native.Nat.{ℕ}
use mathlib.Core.Bool.{Bool, false}
use wireguard_natter_helper.Prelude.Tests.{ltb, nat_eq}

-- `negsuc n` is -(n + 1).
pub data ℤ : Type 0 where
  pos : ℕ → ℤ
  negsuc : ℕ → ℤ

-- `i > 0`
abbrev pub is_positive : ℤ → Bool
is_positive (pos n) = ltb 0 n
is_positive (negsuc n) = false

abbrev pub int_eq : ℤ → ℤ → Bool
int_eq (pos a) (pos b) = nat_eq a b
int_eq (negsuc a) (negsuc b) = nat_eq a b
int_eq _ _ = false
