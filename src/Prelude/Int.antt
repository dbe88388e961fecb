-- ===== src/Prelude/Int.antt =====
-- Go's signed integers over the native numbers. The model takes `int` and `C.int` as unbounded
-- where the source only compares them; a conversion that wraps writes its modulus out.
use Prim.Native.Nat.{ℕ, ◌-◌, ◌%◌, ◌^◌}
use mathlib.Core.Bool.{Bool, true, false}
use ossl_go.Prelude.Tests.{ltb, ◌==◌}

-- `negsuc n` is -(n + 1).
pub data ℤ : Type 0 where
  pos : ℕ → ℤ
  negsuc : ℕ → ℤ

-- a < b
abbrev pub ltb_ℤ : ℤ → ℤ → Bool
ltb_ℤ (pos a) (pos b) = ltb a b
ltb_ℤ (pos a) (negsuc b) = false
ltb_ℤ (negsuc a) (pos b) = true
ltb_ℤ (negsuc a) (negsuc b) = ltb b a

-- a ≤ 0
abbrev pub is_nonpos : ℤ → Bool
is_nonpos (pos n) = n == 0
is_nonpos (negsuc n) = true

-- a == n for a number n
abbrev pub eq_ℕ : ℤ → ℕ → Bool
eq_ℕ (pos m) n = m == n
eq_ℕ (negsuc m) n = false

abbrev pub to_nat : ℤ → ℕ
to_nat (pos n) = n
to_nat (negsuc n) = 0

-- `C.int(n)`: the 32-bit two's complement of a number
abbrev pub c_int : ℕ → ℤ
c_int n =
    let m = n % 2 ^ 32 in elim (ltb m (2 ^ 31)) [ true ↦ pos m | false ↦ negsuc (2 ^ 32 - 1 - m) ]
