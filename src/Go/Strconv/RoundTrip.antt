-- ===== src/Go/Strconv/RoundTrip.antt =====
-- Parsing what was formatted.
use Prim.Native.String.{String, [], ◌∷◌}
use medods_dvortsov.Prelude.{
  ℕ, zero, suc, code, ◌≡◌, refl, ◌+◌, ◌/◌, ◌%◌, ◌<◌, ◌*◌, ◌-◌, none, some, ℤ, pos, negsuc, arith,
  ap, inl, inr, Bool-cases, ltb, ◌∙◌, sym, Char, ◌^◌,
}
use medods_dvortsov.Go.Strconv.{
  decimal_digit, digits_from, format_nat, format_int, scan, parse_nat, positive, negative,
  parse_int, IsInt64, minus,
}

pub code-decimal_digit : (n : ℕ) → n < 10 → code (decimal_digit n) ≡ b'0' + n
unfolding decimal_digit
code-decimal_digit zero h = refl
code-decimal_digit (suc zero) h = refl
code-decimal_digit (suc (suc zero)) h = refl
code-decimal_digit (suc (suc (suc zero))) h = refl
code-decimal_digit (suc (suc (suc (suc zero)))) h = refl
code-decimal_digit (suc (suc (suc (suc (suc zero))))) h = refl
code-decimal_digit (suc (suc (suc (suc (suc (suc zero)))))) h = refl
code-decimal_digit (suc (suc (suc (suc (suc (suc (suc zero))))))) h = refl
code-decimal_digit (suc (suc (suc (suc (suc (suc (suc (suc zero)))))))) h = refl
code-decimal_digit (suc (suc (suc (suc (suc (suc (suc (suc (suc zero))))))))) h = refl
code-decimal_digit (suc (suc (suc (suc (suc (suc (suc (suc (suc (suc n)))))))))) h =
    absurd (omega arith)

scan-digit :
    (acc d : ℕ) (out : String) → d < 10 → scan acc (decimal_digit d ∷ out) ≡ scan (acc * 10 + d) out
unfolding scan
scan-digit acc d out h = ground (arith, code-decimal_digit d)

scan-digits_from :
    (fuel n : ℕ) (out : String) → n < fuel → scan 0 (digits_from fuel n out) ≡ scan n out
unfolding digits_from
scan-digits_from zero n out h = absurd (omega arith)
scan-digits_from (suc fuel) n out h = elim (Bool-cases (ltb n 10)) [
  | inl small ↦ rw small (scan-digit 0 n out (ground arith) ∙ ap (λ k. scan k out) (omega arith))
  | inr large ↦ rw large (
      scan-digits_from fuel (n / 10) (decimal_digit (n % 10) ∷ out) (ground arith)
      ∙ scan-digit (n / 10) (n % 10) out (omega arith)
      ∙ ap (λ k. scan k out) (omega arith))
]

-- The text of a number begins with a digit, so with no sign.
pub starts_with_digit :
    (fuel n : ℕ) (out : String)
    → 0 < fuel
    → (d : ℕ) × (s : String) × (digits_from fuel n out ≡ decimal_digit d ∷ s) × (d < 10)
unfolding digits_from
starts_with_digit zero n out h = absurd (omega arith)
starts_with_digit (suc zero) n out h = elim (Bool-cases (ltb n 10)) [
  | inl small ↦ (n, out, rw small, ground arith)
  | inr large ↦ (n % 10, out, rw large, omega arith)
]
starts_with_digit (suc (suc fuel)) n out h = elim (Bool-cases (ltb n 10)) [
  | inl small ↦ (n, out, rw small, ground arith)
  | inr large ↦
      rw large (starts_with_digit (suc fuel) (n / 10) (decimal_digit (n % 10) ∷ out) (omega arith))
]

pub format_nat-eq : (n : ℕ) → format_nat n ≡ digits_from (suc n) n []
unfolding format_nat
format_nat-eq n = refl

parse_nat-cons : (c : Char) (s : String) → parse_nat (c ∷ s) ≡ scan 0 (c ∷ s)
unfolding parse_nat
parse_nat-cons c s = refl

scan-nil : (n : ℕ) → scan n [] ≡ some n
unfolding scan
scan-nil n = refl

parse_nat-format_nat : (n : ℕ) → parse_nat (format_nat n) ≡ some n
parse_nat-format_nat n =
    let (d, s, e, h) = starts_with_digit (suc n) n [] (omega arith) in
    let read = scan-digits_from (suc n) n [] (omega arith) ∙ scan-nil n in
    rw (format_nat-eq, e, parse_nat-cons) (rw e at read)

-- A text that begins with a digit has no sign.
parse_int-digit :
    (d : ℕ) (s : String)
    → d < 10
    → parse_int (decimal_digit d ∷ s) ≡ positive (parse_nat (decimal_digit d ∷ s))
unfolding parse_int
parse_int-digit d s h = rw (code-decimal_digit d h) (ground arith)

parse_int-positive : (n : ℕ) → parse_int (format_nat n) ≡ positive (some n)
parse_int-positive n =
    let (d, s, e, h) = starts_with_digit (suc n) n [] (omega arith) in
    let digits = format_nat-eq n ∙ e in
    ap parse_int digits
    ∙ parse_int-digit d s h
    ∙ ap (λ t. positive (parse_nat t)) (sym digits)
    ∙ ap positive (parse_nat-format_nat n)

parse_int-negative : (s : String) → parse_int (minus ∷ s) ≡ negative (parse_nat s)
unfolding parse_int
parse_int-negative s = refl

-- Every int64 is read back from its text.
pub parse_int-format_int : (n : ℤ) → IsInt64 n → parse_int (format_int n) ≡ some n
unfolding format_int positive negative
parse_int-format_int (pos n) h = parse_int-positive n ∙ ground arith
parse_int-format_int (negsuc n) h =
    parse_int-negative (format_nat (suc n))
    ∙ ap negative (parse_nat-format_nat (suc n))
    ∙ ground arith

parse_int_tests :
    (format_int (negsuc 41) ≡ "-42")
    × (parse_int "+7" ≡ some (pos 7))
    × (parse_int "9223372036854775808" ≡ none)
    × (parse_int "-9223372036854775808" ≡ some (negsuc (2 ^ 63 - 1)))
    × (parse_int "-" ≡ none)
    × (parse_int "1_0" ≡ none)
unfolding format_int parse_int
parse_int_tests = (refl, refl, refl, refl, refl, refl)
