-- ===== src/Go/Duration/Sizes.antt =====
-- A number with its unit takes a character at least from the text.
use Prim.Native.String.{String, [], ◌∷◌}
use medods_dvortsov.Prelude.{
  ℕ, Char, code, ◌+◌, ◌*◌, ◌≤◌, ◌<◌, ◌≡◌, refl, ap, ◌∙◌, sym, Bool, true, false, ◌||◌, not, Option,
  none, some, nat_eq, if◌then◌else◌, arith, Bool-cases, inl, inr,
}
use medods_dvortsov.Go.Duration.{
  size, is_digit, digit_of, leading_int, leading_fraction, take_unit, unit_of, in_unit, with_rest,
  unit_after, fraction_after, after_digits, segment,
}

leading_int-size :
    (x : ℕ) (s : String) (v : ℕ) (rest : String)
    → leading_int x s ≡ some (v, rest)
    → size rest ≤ size s
unfolding leading_int
leading_int-size x [] v rest h = let e : [] ≡ rest = cc in omega (arith, ap size e)
leading_int-size x (c ∷ s) v rest h =
    ground (arith, leading_int-size (x * 10 + digit_of c) s v rest)

leading_fraction-size :
    (o : Bool) (x scale : ℕ) (s : String) → size (leading_fraction o x scale s).2 ≤ size s
unfolding leading_fraction
leading_fraction-size o x scale [] = omega arith
leading_fraction-size o x scale (c ∷ s) = ground (
  arith,
  leading_fraction-size true x scale s,
  leading_fraction-size false (x * 10 + digit_of c) (scale * 10) s,
)

take_unit-size : (s : String) → size (take_unit s).0 + size (take_unit s).1 ≡ size s
unfolding take_unit
take_unit-size [] = refl
take_unit-size (c ∷ s) = elim (Bool-cases (nat_eq (code c) b'.' || is_digit c)) [
  | inl ends ↦ rw ends (omega arith)
  | inr goes_on ↦ rw goes_on (omega (arith, take_unit-size s))
]

unit_of-nil : unit_of [] ≡ none
unfolding unit_of
unit_of-nil = refl

missing : (n : ℕ) → ◌≡◌ {A = Option ℕ} none (some n) → ⊥
missing n h = absurd (cc)

missing_pair : (n : ℕ) (s : String) → ◌≡◌ {A = Option (ℕ × String)} none (some (n, s)) → ⊥
missing_pair n s h = absurd (cc)

-- The branch that is taken.
then_branch {ℓ} : {A : Type ℓ} (b : Bool) (x y z : A) → b ≡ true → (if b then x else y) ≡ z → x ≡ z
then_branch true x y z e h = h
then_branch false x y z e h = absurd (cc)

else_branch {ℓ} : {A : Type ℓ} (b : Bool) (x y z : A) → b ≡ false → (if b then x else y) ≡ z → y ≡ z
else_branch true x y z e h = absurd (cc)
else_branch false x y z e h = h

shorter :
    (u rest s : String) (unit : ℕ)
    → size u + size rest ≡ size s
    → unit_of u ≡ some unit
    → size rest < size s
shorter [] rest s unit h k = absurd (missing unit (sym unit_of-nil ∙ k))
shorter (c ∷ u) rest s unit h k = omega arith

module _ (scaled : ℕ → ℕ → ℕ → ℕ) where
  with_rest-size :
      (v f scale : ℕ) (u rest s : String) (found : Option ℕ) (n : ℕ) (r : String)
      → size u + size rest ≡ size s
      → unit_of u ≡ found
      → with_rest scaled rest (in_unit scaled v f scale found) ≡ some (n, r)
      → size r < size s
  unfolding with_rest in_unit
  with_rest-size v f scale u rest s none n r parts k h = absurd (cc)
  with_rest-size v f scale u rest s (some unit) n r parts k h =
      let less = shorter u rest s unit parts k in ground arith

  unit_after-size :
      (b : Bool) (v f scale : ℕ) (s : String) (n : ℕ) (rest : String)
      → unit_after scaled b v f scale s ≡ some (n, rest)
      → size rest < size s
  unfolding unit_after
  unit_after-size false v f scale s n rest h = absurd (cc)
  unit_after-size true v f scale s n rest h =
      with_rest-size v f scale (take_unit s).0 (take_unit s).1 s (unit_of (take_unit s).0) n rest
        (take_unit-size s) refl h

  fraction_after-size :
      (b : Bool) (v : ℕ) (s : String) (n : ℕ) (rest : String)
      → fraction_after scaled b v s ≡ some (n, rest)
      → size rest < size s
  unfolding fraction_after
  fraction_after-size b v [] n rest h = unit_after-size b v 0 1 [] n rest h
  fraction_after-size b v (c ∷ s) n rest h =
      let (f, scale, after) = leading_fraction false 0 1 s in
      let digits = b || not (nat_eq (size after) (size s)) in
      let with_dot = unit_after scaled digits v f scale after in
      let without = unit_after scaled b v 0 1 (c ∷ s) in
      elim (Bool-cases (nat_eq (code c) b'.')) [
        | inl dot ↦
            let less : size rest < size after =
              unit_after-size digits v f scale after n rest
                (then_branch (nat_eq (code c) b'.') with_dot without (some (n, rest)) dot h) in
            omega (arith, less, leading_fraction-size false 0 1 s)
        | inr other ↦
            unit_after-size b v 0 1 (c ∷ s) n rest
              (else_branch (nat_eq (code c) b'.') with_dot without (some (n, rest)) other h)
      ]

  after_digits-size :
      (s : String) (read : Option (ℕ × String)) (n : ℕ) (rest : String)
      → leading_int 0 s ≡ read
      → after_digits scaled s read ≡ some (n, rest)
      → size rest < size s
  unfolding after_digits
  after_digits-size s none n rest k h = absurd (cc)
  after_digits-size s (some (v, left)) n rest k h = omega (
    arith,
    leading_int-size 0 s v left k,
    fraction_after-size (not (nat_eq (size left) (size s))) v left n rest h,
  )

  pub segment-size :
      (c : Char) (s : String) (n : ℕ) (rest : String)
      → segment scaled c s ≡ some (n, rest)
      → size rest ≤ size s
  unfolding segment
  segment-size c s n rest h = elim (Bool-cases (nat_eq (code c) b'.' || is_digit c)) [
    | inl starts ↦ omega (
      arith,
      after_digits-size (c ∷ s) (leading_int 0 (c ∷ s)) n rest refl
          (then_branch (nat_eq (code c) b'.' || is_digit c) _ none (some (n, rest)) starts h),
    )
    | inr other ↦ absurd (
        missing_pair _ _
          (else_branch (nat_eq (code c) b'.' || is_digit c) _ none (some (n, rest)) other h))
  ]
