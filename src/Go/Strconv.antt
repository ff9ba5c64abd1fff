-- ===== src/Go/Strconv.antt =====
-- `strconv.FormatInt` and `strconv.ParseInt` in base 10, for int64.
pub mod RoundTrip
use Prim.Native.String.{String, [], ◌∷◌}
use medods_dvortsov.Prelude.{
  ℕ, zero, suc, Char, code, ◌+◌, ◌-◌, ◌*◌, ◌/◌, ◌%◌, ◌^◌, ◌<◌, Bool, true, false, ◌&&◌, Option,
  none, some, ℤ, pos, negsuc, leb, ltb, nat_eq, if◌then◌else◌,
}
use medods_dvortsov.Go.Hex.{char_at}

unfoldable pub decimal_digit : ℕ → Char
unfolding char_at
decimal_digit n = char_at "0123456789" n

-- The digits of `n` in front of `out`. A number has at most as many digits as itself, and one.
unfoldable pub digits_from : (fuel n : ℕ) → String → String
digits_from zero n out = out
digits_from (suc fuel) n out =
    let more = digits_from fuel (n / 10) (decimal_digit (n % 10) ∷ out) in
    if ltb n 10 then decimal_digit n ∷ out else more

abbrev minus : Char
minus = "-"

unfoldable pub format_nat : ℕ → String
unfolding digits_from decimal_digit
format_nat n = digits_from (suc n) n []

-- `strconv.FormatInt(n, 10)`.
unfoldable pub format_int : ℤ → String
unfolding format_nat
format_int (pos n) = format_nat n
format_int (negsuc n) = minus ∷ format_nat (suc n)

-- The number that the digits stand for behind those read so far; `none` at another character.
scan : ℕ → String → Option ℕ
scan n [] = some n
scan n (c ∷ s) =
    if leb b'0' (code c) && leb (code c) b'9' then scan (n * 10 + (code c - b'0')) s else none

abbrev max_int64 : ℕ
max_int64 = 2 ^ 63 - 1

-- No digits are a syntax error.
parse_nat : String → Option ℕ
unfolding scan
parse_nat [] = none
parse_nat (c ∷ s) = scan 0 (c ∷ s)

positive : Option ℕ → Option ℤ
positive none = none
positive (some n) = if leb n max_int64 then some (pos n) else none

negative : Option ℕ → Option ℤ
negative none = none
negative (some zero) = some (pos 0)
negative (some (suc n)) = if leb n max_int64 then some (negsuc n) else none

-- `strconv.ParseInt(s, 10, 64)`: a sign, digits, and the range of int64. `none` is its error.
unfoldable pub parse_int : String → Option ℤ
unfolding parse_nat positive negative
parse_int [] = none
parse_int (c ∷ s) =
    if nat_eq (code c) b'-'
    then negative (parse_nat s)
    else if nat_eq (code c) b'+'
    then positive (parse_nat s)
    else positive (parse_nat (c ∷ s))

-- The values of an int64.
abbrev pub IsInt64 : ℤ → Type 0
IsInt64 (pos n) = n < 2 ^ 63
IsInt64 (negsuc n) = n < 2 ^ 63
