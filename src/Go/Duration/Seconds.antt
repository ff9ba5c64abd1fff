-- ===== src/Go/Duration/Seconds.antt =====
-- A whole number of seconds, as text, is read as that many seconds.
use Prim.Native.String.{String, [], ◌∷◌, ◌++◌}
use medods_dvortsov.Go.Duration.Bounds.{segments-nil}
use medods_dvortsov.Prelude.{
  ==-false_of_ne, ℕ, zero, suc, Char, ◌+◌, ◌*◌, ◌/◌, ◌%◌, ◌^◌, ◌≤◌, ◌<◌, ◌≡◌, refl, ap, ◌∙◌, sym,
  true, false, some, pos, ltb, arith, Bool-cases, inl, inr, cons-append, nil-append,
}
use medods_dvortsov.Go.Strconv.{format_nat, digits_from, decimal_digit}
use medods_dvortsov.Go.Strconv.RoundTrip.{code-decimal_digit, starts_with_digit, format_nat-eq}
use medods_dvortsov.Go.Duration.{
  size, leading_int, take_unit, unit_of, in_unit, with_rest, unit_after, fraction_after,
  after_digits, segment, segments, signed, unsigned, parse_duration,
}

leading_int-digit :
    (x d : ℕ) (s : String)
    → d < 10
    → x * 10 + d ≤ 2 ^ 63
    → leading_int x (decimal_digit d ∷ s) ≡ leading_int (x * 10 + d) s
unfolding leading_int
leading_int-digit x d s h fits = ground (arith, code-decimal_digit d h)

leading_int-digits_from :
    (fuel n : ℕ) (out : String)
    → n < fuel
    → n ≤ 2 ^ 63
    → leading_int 0 (digits_from fuel n out) ≡ leading_int n out
unfolding digits_from
leading_int-digits_from zero n out h fits = absurd (omega arith)
leading_int-digits_from (suc fuel) n out h fits = elim (Bool-cases (ltb n 10)) [
  | inl small ↦ rw small (
      leading_int-digit 0 n out (ground arith) (omega arith)
      ∙ ap (λ k. leading_int k out) (omega arith))
  | inr large ↦ rw large (
      leading_int-digits_from fuel (n / 10) (decimal_digit (n % 10) ∷ out) (ground arith)
        (omega arith)
      ∙ leading_int-digit (n / 10) (n % 10) out (omega arith) (omega arith)
      ∙ ap (λ k. leading_int k out) (omega arith))
]

-- More text behind the digits stays behind them.
digits_from-append :
    (fuel n : ℕ) (out more : String)
    → digits_from fuel n out ++ more ≡ digits_from fuel n (out ++ more)
unfolding digits_from
digits_from-append zero n out more = refl
digits_from-append (suc fuel) n out more = elim (Bool-cases (ltb n 10)) [
  | inl small ↦ rw small (cons-append (decimal_digit n) out more)
  | inr large ↦ rw large (
      digits_from-append fuel (n / 10) (decimal_digit (n % 10) ∷ out) more
      ∙ ap (digits_from fuel (n / 10)) (cons-append (decimal_digit (n % 10)) out more))
]

digits_from-size : (fuel n : ℕ) (out : String) → 0 < fuel → size out < size (digits_from fuel n out)
unfolding digits_from
digits_from-size zero n out h = absurd (omega arith)
digits_from-size (suc zero) n out h = elim (Bool-cases (ltb n 10)) [
  | inl small ↦ rw small (omega arith)
  | inr large ↦ rw large (omega arith)
]
digits_from-size (suc (suc fuel)) n out h = elim (Bool-cases (ltb n 10)) [
  | inl small ↦ rw small (omega arith)
  | inr large ↦ rw large (
      let longer =
        digits_from-size (suc fuel) (n / 10) (decimal_digit (n % 10) ∷ out) (omega arith) in
      omega arith)
]

leading_int-unit : (n : ℕ) → leading_int n "s" ≡ some (n, "s")
unfolding leading_int
leading_int-unit n = refl

module _ (scaled : ℕ → ℕ → ℕ → ℕ) where
  unit_after_seconds :
      (n : ℕ)
      → n * 1000000000 < 2 ^ 63
      → unit_after scaled true n 0 1 "s" ≡ some (n * 1000000000, "")
  unfolding unit_after take_unit unit_of in_unit with_rest
  unit_after_seconds n fits = ground arith

  segment_seconds :
      (d n : ℕ) (s : String)
      → d < 10
      → 0 < size s
      → n * 1000000000 < 2 ^ 63
      → leading_int 0 (decimal_digit d ∷ s) ≡ some (n, "s")
      → segment scaled (decimal_digit d) s ≡ some (n * 1000000000, "")
  unfolding segment after_digits fraction_after
  segment_seconds d n s h longer fits leads =
      ground (arith, code-decimal_digit d h, leads, unit_after_seconds n fits)

  segments_seconds :
      (c : Char) (n fuel : ℕ) (s : String)
      → n * 1000000000 < 2 ^ 63
      → segment scaled c s ≡ some (n * 1000000000, "")
      → segments scaled (suc fuel) 0 (c ∷ s) ≡ some (n * 1000000000)
  unfolding segments
  segments_seconds c n fuel s fits e =
      rw (e, segments)
        (rw (segments-nil scaled fuel ((0 + n * 1000000000) % 2 ^ 64)) (ground arith))

  unsigned_seconds :
      (c : Char) (n : ℕ) (s : String)
      → 0 < size s
      → n * 1000000000 < 2 ^ 63
      → segment scaled c s ≡ some (n * 1000000000, "")
      → unsigned scaled false (c ∷ s) ≡ some (pos (n * 1000000000))
  unfolding unsigned signed
  unsigned_seconds c n s longer fits e =
      rw
        (
          ==-false_of_ne (c ∷ s) "0" (λ h. absurd (omega (arith, ap size h))),
          ==-false_of_ne (c ∷ s) "" (λ h. absurd (omega (arith, ap size h))),
          segments_seconds c n (size s) s fits e,
        )
        (ground arith)

  parse_duration-digit :
      (d : ℕ) (s : String)
      → d < 10
      → parse_duration scaled (decimal_digit d ∷ s) ≡ unsigned scaled false (decimal_digit d ∷ s)
  unfolding parse_duration
  parse_duration-digit d s h = rw (code-decimal_digit d h) (ground arith)

  -- A number with the unit "s".
  pub parse_duration_seconds :
      (n : ℕ)
      → n * 1000000000 < 2 ^ 63
      → parse_duration scaled (format_nat n ++ "s") ≡ some (pos (n * 1000000000))
  parse_duration_seconds n fits =
      let text : format_nat n ++ "s" ≡ digits_from (suc n) n "s" =
        ap (λ t. t ++ "s") (format_nat-eq n)
        ∙ digits_from-append (suc n) n [] "s"
        ∙ ap (digits_from (suc n) n) (nil-append "s") in
      let (d, s, e, h) = starts_with_digit (suc n) n "s" (omega arith) in
      let leads : leading_int 0 (decimal_digit d ∷ s) ≡ some (n, "s") =
        ap (leading_int 0) (sym e)
        ∙ leading_int-digits_from (suc n) n "s" (omega arith) (omega arith)
        ∙ leading_int-unit n in
      let longer : 0 < size s =
        omega (arith, digits_from-size (suc n) n "s" (omega arith), ap size e) in
      ap (parse_duration scaled) (text ∙ e)
      ∙ parse_duration-digit d s h
      ∙ unsigned_seconds (decimal_digit d) n s longer fits
          (segment_seconds d n s h longer fits leads)
