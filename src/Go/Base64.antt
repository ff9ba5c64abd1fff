-- ===== src/Go/Base64.antt =====
-- `base64.RawURLEncoding`: the URL alphabet, with no padding.
use Prim.Native.String.{String, [], ◌∷◌}
use medods_dvortsov.Prelude.{
  ℕ, zero, suc, Char, code, ◌≡◌, refl, ◌≢◌, ◌+◌, ◌*◌, ◌/◌, ◌%◌, Bool, true, ◌&&◌, not, List, arith,
  nat_eq,
}
use medods_dvortsov.Go.Hex.{char_at}
use medods_dvortsov.Go.Strings.{Lacks}

abbrev alphabet : String
alphabet = "ABCDEFGHIJKLMNOPQRSTUVWXYZabcdefghijklmnopqrstuvwxyz0123456789-_"

unfoldable pub sextet : ℕ → Char
unfolding char_at
sextet n = char_at alphabet n

-- Three bytes are four characters; one or two that remain are two or three.
unfoldable pub encode : List ℕ → String
encode List.[] = []
encode (List.◌∷◌ a List.[]) = sextet (a / 4) ∷ (sextet (a % 4 * 16) ∷ [])
encode (List.◌∷◌ a (List.◌∷◌ b List.[])) =
    sextet (a / 4) ∷ (sextet (a % 4 * 16 + b / 16) ∷ (sextet (b % 16 * 4) ∷ []))
encode (List.◌∷◌ a (List.◌∷◌ b (List.◌∷◌ c bs))) =
    sextet (a / 4)
    ∷ (sextet (a % 4 * 16 + b / 16)
        ∷ (sextet (b % 16 * 4 + c / 64) ∷ (sextet (c % 64) ∷ encode bs)))

no_dot : String → Bool
no_dot [] = true
no_dot (c ∷ s) = not (nat_eq (code c) b'.') && no_dot s

-- Also past the table's end, where `char_at` answers a digit.
char_at-ne-dot : (t : String) (n : ℕ) → no_dot t ≡ true → code (char_at t n) ≢ b'.'
unfolding no_dot char_at
char_at-ne-dot [] n h = omega arith
char_at-ne-dot (c ∷ t) zero h = ground arith
char_at-ne-dot (c ∷ t) (suc n) h = char_at-ne-dot t n (ground arith)

sextet-ne-dot : (n : ℕ) → code (sextet n) ≢ b'.'
unfolding sextet
sextet-ne-dot n = char_at-ne-dot alphabet n (unfold no_dot in refl)

-- An encoding holds no dot.
pub Lacks-encode : (bs : List ℕ) → Lacks b'.' (encode bs)
unfolding encode
Lacks-encode List.[] = tt
Lacks-encode (List.◌∷◌ a List.[]) = (sextet-ne-dot _, (sextet-ne-dot _, tt))
Lacks-encode (List.◌∷◌ a (List.◌∷◌ b List.[])) =
    (sextet-ne-dot _, (sextet-ne-dot _, (sextet-ne-dot _, tt)))
Lacks-encode (List.◌∷◌ a (List.◌∷◌ b (List.◌∷◌ c bs))) =
    (sextet-ne-dot _, (sextet-ne-dot _, (sextet-ne-dot _, (sextet-ne-dot _, Lacks-encode bs))))

encode_test : encode (List.◌∷◌ 255 (List.◌∷◌ 254 (List.◌∷◌ 0 (List.◌∷◌ 16 List.[])))) ≡ "__4AEA"
unfolding encode sextet
encode_test = refl
