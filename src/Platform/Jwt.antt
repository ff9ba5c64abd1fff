-- ===== src/Platform/Jwt.antt =====
-- The library golang-jwt/v5, as internal/service/token.go uses it.
use medods_dvortsov.Prelude.{ℕ, ◌+◌, ◌≤◌, ◌<◌, String, ◌≡◌, Bool, true, Option, some, List, [], ◌∷◌}
use medods_dvortsov.Go.Errors.{Result, ok}
use medods_dvortsov.Models.{Time}

-- `jwtClaims`: the claim "uid" and the registered claims in use.
pub record JwtClaims : Type 0 where
  pub user_id : String
  pub id : String
  pub subject : String
  pub issued_at : Time
  pub expires_at : Option Time

pub record ParserOptions : Type 0 where
  pub valid_methods : List String
  pub leeway : ℕ
  pub expiration_required : Bool

pub record Token : Type 0 where
  pub claims : JwtClaims
  pub valid : Bool

pub record JwtLibrary : Type 0 where
  -- A date as a token carries it, in whole seconds.
  pub numeric_date : Time → Time
  -- HS512 with the key.
  pub signed_string : List ℕ → JwtClaims → Result String
  -- The options, the function from the token's method to the key, the time, the token.
  pub parse_with_claims : ParserOptions → (String → Result (List ℕ)) → Time → String → Result Token
  pub parse_unverified : String → Result JwtClaims
  pub numeric_date_le : (t : Time) → numeric_date t ≤ t
  pub numeric_date_near : (t : Time) → t < numeric_date t + 1000
  pub numeric_date_idem : (t : Time) → numeric_date (numeric_date t) ≡ numeric_date t
  -- A token that was signed has the claims that were signed; their dates are whole seconds.
  pub parse_unverified-signed :
      (key : List ℕ) (expires : Time) (c : JwtClaims) (t : String)
      → numeric_date c.issued_at ≡ c.issued_at
      → c.expires_at ≡ some expires
      → numeric_date expires ≡ expires
      → signed_string key c ≡ ok t
      → parse_unverified t ≡ ok c
  -- It is valid under the same key until it expires, the leeway added.
  pub parse-signed :
      (o : ParserOptions) (keyfunc : String → Result (List ℕ)) (key : List ℕ) (now expires : Time)
      (c : JwtClaims) (t : String)
      → o.valid_methods ≡ "HS512" ∷ []
      → keyfunc "HS512" ≡ ok key
      → numeric_date c.issued_at ≡ c.issued_at
      → c.expires_at ≡ some expires
      → numeric_date expires ≡ expires
      → now < expires + o.leeway
      → signed_string key c ≡ ok t
      → parse_with_claims o keyfunc now t ≡ ok (record { claims = c; valid = true })
  -- Parsing reads the claims that the text carries.
  pub parse-claims :
      (o : ParserOptions) (keyfunc : String → Result (List ℕ)) (now : Time) (t : String) (p : Token)
      → parse_with_claims o keyfunc now t ≡ ok p
      → parse_unverified t ≡ ok p.claims
  -- Where an expiry is required, a token that is accepted has one, and it has not passed.
  pub parse_expiry :
      (o : ParserOptions) (keyfunc : String → Result (List ℕ)) (now : Time) (t : String) (p : Token)
      → o.expiration_required ≡ true
      → parse_with_claims o keyfunc now t ≡ ok p
      → (e : Time) × (p.claims.expires_at ≡ some e) × (now < e + o.leeway)
