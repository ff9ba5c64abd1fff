-- ===== src/Go/Hex/RoundTrip.antt =====
-- Decoding what was encoded.
use medods_dvortsov.Prelude.{
  ℕ, zero, suc, code, ◌≡◌, refl, ◌/◌, ◌%◌, ◌<◌, some, List, All, arith, ap,
}
use medods_dvortsov.Go.Hex.{hex_digit, encode, from_hex, join_byte, decode}

-- The elements are bytes.
abbrev pub AreBytes : List ℕ → Type 0
AreBytes = All (λ b. b < 256)

from_hex-hex_digit : (n : ℕ) → n < 16 → from_hex (code (hex_digit n)) ≡ some n
unfolding from_hex hex_digit
from_hex-hex_digit zero h = refl
from_hex-hex_digit (suc zero) h = refl
from_hex-hex_digit (suc (suc zero)) h = refl
from_hex-hex_digit (suc (suc (suc zero))) h = refl
from_hex-hex_digit (suc (suc (suc (suc zero)))) h = refl
from_hex-hex_digit (suc (suc (suc (suc (suc zero))))) h = refl
from_hex-hex_digit (suc (suc (suc (suc (suc (suc zero)))))) h = refl
from_hex-hex_digit (suc (suc (suc (suc (suc (suc (suc zero))))))) h = refl
from_hex-hex_digit (suc (suc (suc (suc (suc (suc (suc (suc n)))))))) h = high n (omega arith)
  where
    high :
        (n : ℕ)
        → n < 8
        → from_hex (code (hex_digit (suc (suc (suc (suc (suc (suc (suc (suc n))))))))))
          ≡ some (suc (suc (suc (suc (suc (suc (suc (suc n))))))))
    high zero h = refl
    high (suc zero) h = refl
    high (suc (suc zero)) h = refl
    high (suc (suc (suc zero))) h = refl
    high (suc (suc (suc (suc zero)))) h = refl
    high (suc (suc (suc (suc (suc zero))))) h = refl
    high (suc (suc (suc (suc (suc (suc zero)))))) h = refl
    high (suc (suc (suc (suc (suc (suc (suc zero))))))) h = refl
    high (suc (suc (suc (suc (suc (suc (suc (suc n)))))))) h = absurd (omega arith)

pub decode-encode : (bs : List ℕ) → AreBytes bs → decode (encode bs) ≡ some bs
unfolding decode encode
decode-encode List.[] h = refl
decode-encode (List.◌∷◌ b bs) (p, h) =
    rw
      (
        from_hex-hex_digit (b / 16) (omega arith),
        from_hex-hex_digit (b % 16) (omega arith),
        decode-encode bs h,
        join_byte,
      )
      (ap (λ (x : ℕ). some (List.◌∷◌ x bs)) (omega arith))
