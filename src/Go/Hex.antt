-- ===== src/Go/Hex.antt =====
-- Package encoding/hex.
pub mod RoundTrip
use Prim.Native.String.{String, [], ◌∷◌}
use mathlib.Core.List
use medods_dvortsov.Prelude.{
  ℕ, zero, suc, Char, code, ◌+◌, ◌-◌, ◌*◌, ◌/◌, ◌%◌, Option, none, some, List, ◌&&◌, leb,
  if◌then◌else◌,
}

-- The character at a place of a table.
unfoldable pub char_at : String → ℕ → Char
char_at [] _ = "0"
char_at (c ∷ _) zero = c
char_at (_ ∷ s) (suc i) = char_at s i

hex_digit : ℕ → Char
unfolding char_at
hex_digit n = char_at "0123456789abcdef" n

-- `hex.EncodeToString`: two lower-case digits for each byte, the high half first.
unfoldable pub encode : List ℕ → String
unfolding hex_digit
encode List.[] = []
encode (List.◌∷◌ b bs) = hex_digit (b / 16) ∷ (hex_digit (b % 16) ∷ encode bs)

from_hex : ℕ → Option ℕ
from_hex c =
    if leb b'0' c && leb c b'9'
    then some (c - b'0')
    else if leb b'a' c && leb c b'f'
    then some (c - b'a' + 10)
    else if leb b'A' c && leb c b'F'
    then some (c - b'A' + 10)
    else none

abbrev join_byte : Option ℕ → Option ℕ → Option (List ℕ) → Option (List ℕ)
join_byte (some h) (some l) (some rest) = some (List.◌∷◌ (h * 16 + l) rest)
join_byte _ _ _ = none

-- `hex.DecodeString`: `none` is its error, on another character or an odd length.
unfoldable pub decode : String → Option (List ℕ)
unfolding from_hex
decode [] = some List.[]
decode (_ ∷ []) = none
decode (c ∷ (d ∷ s)) = join_byte (from_hex (code c)) (from_hex (code d)) (decode s)
