-- ===== src/Go/Duration.antt =====
-- `time.ParseDuration`. A duration is a number of nanoseconds; the float64 arithmetic of a fraction is a
-- parameter.
pub mod Sizes
pub mod Bounds
pub mod Seconds
use Prim.Native.String.{String, [], ◌∷◌}
use medods_dvortsov.Prelude.{
  ℕ, zero, suc, Char, code, ◌+◌, ◌-◌, ◌*◌, ◌/◌, ◌%◌, ◌^◌, Bool, true, false, ◌&&◌, ◌||◌, not,
  Option, none, some, ℤ, pos, negsuc, leb, ltb, nat_eq, ◌==◌, if◌then◌else◌,
}

abbrev pub size : String → ℕ
size [] = 0
size (c ∷ s) = suc (size s)

abbrev pub is_digit : Char → Bool
is_digit c = leb b'0' (code c) && leb (code c) b'9'

abbrev pub digit_of : Char → ℕ
digit_of c = code c - b'0'

-- The digits in front, as a number that is at most 2 ^ 63, and the rest.
unfoldable pub leading_int : ℕ → String → Option (ℕ × String)
leading_int x [] = some (x, [])
leading_int x (c ∷ s) =
    let more = leading_int (x * 10 + digit_of c) s in
    if not (is_digit c)
    then some (x, c ∷ s)
    else if ltb (2 ^ 63 / 10) x || ltb (2 ^ 63) (x * 10 + digit_of c)
    then none
    else more

-- The digits of a fraction, as a number and a power of ten, and the rest. Once the number is too large,
-- the digits that follow are left out.
unfoldable pub leading_fraction : Bool → ℕ → ℕ → String → ℕ × ℕ × String
leading_fraction overflow x scale [] = (x, scale, [])
leading_fraction overflow x scale (c ∷ s) =
    let skipped = leading_fraction true x scale s in
    let counted = leading_fraction false (x * 10 + digit_of c) (scale * 10) s in
    if not (is_digit c)
    then (x, scale, c ∷ s)
    else if overflow || ltb ((2 ^ 63 - 1) / 10) x || ltb (2 ^ 63) (x * 10 + digit_of c)
    then skipped
    else counted

-- The characters up to a digit or a dot, and the rest.
unfoldable pub take_unit : String → String × String
take_unit [] = ([], [])
take_unit (c ∷ s) =
    let (u, rest) = take_unit s in
    if nat_eq (code c) b'.' || is_digit c then ([], c ∷ s) else (c ∷ u, rest)

-- `unitMap`; no unit is an error.
unfoldable pub unit_of : String → Option ℕ
unit_of u =
    if u == "ns"
    then some 1
    else if u == "us" || u == "µs" || u == "μs"
    then some 1000
    else if u == "ms"
    then some 1000000
    else if u == "s"
    then some 1000000000
    else if u == "m"
    then some 60000000000
    else if u == "h"
    then some 3600000000000
    else none

module _ (scaled : ℕ → ℕ → ℕ → ℕ) where
  -- A number and its fraction in the unit; a uint64 that is at most 2 ^ 63.
  unfoldable pub in_unit : ℕ → ℕ → ℕ → Option ℕ → Option ℕ
  in_unit v f scale none = none
  in_unit v f scale (some unit) =
      let sum = (v * unit + scaled f scale unit) % 2 ^ 64 in
      if ltb (2 ^ 63 / unit) v
      then none
      else if nat_eq f 0
      then some (v * unit)
      else if ltb (2 ^ 63) sum
      then none
      else some sum

  with_rest : String → Option ℕ → Option (ℕ × String)
  with_rest rest none = none
  with_rest rest (some v) = some (v, rest)

  unfoldable pub unit_after : Bool → ℕ → ℕ → ℕ → String → Option (ℕ × String)
  unfolding with_rest
  unit_after digits v f scale s =
      let (u, rest) = take_unit s in
      if digits then with_rest rest (in_unit v f scale (unit_of u)) else none

  -- The fraction behind the digits, if there is one. `pre` tells whether there were digits.
  unfoldable pub fraction_after : Bool → ℕ → String → Option (ℕ × String)
  fraction_after pre v [] = unit_after pre v 0 1 []
  fraction_after pre v (c ∷ s) =
      let (f, scale, rest) = leading_fraction false 0 1 s in
      if nat_eq (code c) b'.'
      then unit_after (pre || not (nat_eq (size rest) (size s))) v f scale rest
      else unit_after pre v 0 1 (c ∷ s)

  unfoldable pub after_digits : String → Option (ℕ × String) → Option (ℕ × String)
  after_digits s none = none
  after_digits s (some (v, rest)) = fraction_after (not (nat_eq (size rest) (size s))) v rest

  -- One number with its unit, and the rest.
  unfoldable pub segment : Char → String → Option (ℕ × String)
  segment c s =
      if nat_eq (code c) b'.' || is_digit c
      then after_digits (c ∷ s) (leading_int 0 (c ∷ s))
      else none

  -- The numbers with units, one after another, on the number of those before. Each takes a character
  -- at least, so the length of the text is fuel enough.
  unfoldable pub segments : ℕ → ℕ → String → Option ℕ
  segments fuel d [] = some d
  segments zero d (c ∷ s) = none
  segments (suc fuel) d (c ∷ s) = elim (segment c s) [
    | none ↦ none
    | some (v, rest) ↦
        let more = segments fuel ((d + v) % 2 ^ 64) rest in
        if ltb (2 ^ 63) ((d + v) % 2 ^ 64) then none else more
  ]

  unfoldable pub signed : Bool → Option ℕ → Option ℤ
  signed negative none = none
  signed true (some zero) = some (pos 0)
  signed true (some (suc n)) = some (negsuc n)
  signed false (some n) = if ltb (2 ^ 63 - 1) n then none else some (pos n)

  unfoldable pub unsigned : Bool → String → Option ℤ
  unsigned negative s =
      if s == "0"
      then some (pos 0)
      else if s == ""
      then none
      else signed negative (segments (size s) 0 s)

  -- `time.ParseDuration(s)`. `none` is its error.
  unfoldable pub parse_duration : String → Option ℤ
  parse_duration [] = none
  parse_duration (c ∷ s) =
      if nat_eq (code c) b'-'
      then unsigned true s
      else if nat_eq (code c) b'+'
      then unsigned false s
      else unsigned false (c ∷ s)
