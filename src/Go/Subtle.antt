-- ===== src/Go/Subtle.antt =====
-- `subtle.ConstantTimeCompare`.
use medods_dvortsov.Prelude.{
  ℕ, ◌≡◌, ◌↔◌, Bool, true, false, ◌&&◌, List, [], ◌∷◌, arith, nat_eq, if◌then◌else◌,
}

abbrev same_bytes : List ℕ → List ℕ → Bool
same_bytes [] [] = true
same_bytes (x ∷ xs) (y ∷ ys) = nat_eq x y && same_bytes xs ys
same_bytes _ _ = false

-- 1 for slices of the same length and contents, else 0.
unfoldable pub constant_time_compare : List ℕ → List ℕ → ℕ
constant_time_compare xs ys = if same_bytes xs ys then 1 else 0

same_bytes_iff : (xs ys : List ℕ) → (same_bytes xs ys ≡ true) ↔ (xs ≡ ys)
same_bytes_iff [] [] = ground arith
same_bytes_iff [] (y ∷ ys) = ground arith
same_bytes_iff (x ∷ xs) [] = ground arith
same_bytes_iff (x ∷ xs) (y ∷ ys) = ground (arith, same_bytes_iff xs ys)

pub constant_time_compare_iff : (xs ys : List ℕ) → (constant_time_compare xs ys ≡ 1) ↔ (xs ≡ ys)
unfolding constant_time_compare
constant_time_compare_iff xs ys = ground (arith, same_bytes_iff xs ys)
