-- ===== src/Prelude/Int.antt =====
-- Signed integers over the native numbers: Go's int64 values and durations.
use Prim.Native.Nat.{ℕ, ◌-◌}
use mathlib.Core.Path.{◌≡◌, refl}
use mathlib.Core.Logic.{◌↔◌}
use mathlib.Core.Bool.{Bool, true, false}
use native.Mathlib.Omega.{arith}
use medods_dvortsov.Prelude.Tests.{leb, nat_eq, if◌then◌else◌}

-- `negsuc n` is -(n + 1).
pub data ℤ : Type 0 where
  pos : ℕ → ℤ
  negsuc : ℕ → ℤ

abbrev pub int_eq : ℤ → ℤ → Bool
int_eq (pos m) (pos n) = nat_eq m n
int_eq (negsuc m) (negsuc n) = nat_eq m n
int_eq _ _ = false

-- a - b, as an integer.
abbrev pub sub_ℕ : ℕ → ℕ → ℤ
sub_ℕ a b = if leb b a then pos (a - b) else negsuc (b - a - 1)

pub int_eq_iff : (a b : ℤ) → (int_eq a b ≡ true) ↔ (a ≡ b)
int_eq_iff (pos m) (pos n) = ground arith
int_eq_iff (negsuc m) (negsuc n) = ground arith
int_eq_iff (pos m) (negsuc n) = ground arith
int_eq_iff (negsuc m) (pos n) = ground arith

pub int_eq_refl : (a : ℤ) → int_eq a a ≡ true
int_eq_refl a = (int_eq_iff a a).1 refl
