-- ===== src/Token.antt =====
-- internal/service/token.go.
pub mod Refresh
pub mod Access
use Prim.Native.String.{◌++◌}
use medods_dvortsov.Prelude.{
  ℕ, zero, suc, ◌+◌, String, Bool, true, not, Option, none, some, List, [], ◌∷◌, ℤ, sub_ℕ, nat_eq,
  ◌==◌, if◌then◌else◌,
}
use medods_dvortsov.Go.Errors.{
  foreign, context, Result, ok, err, panicked, text, sentinel, joined, token_invalid,
  token_malformed, token_revoked, invalid_user_id, invalid_signing_method, wrap_result,
}
use medods_dvortsov.Go.Strings.{split}
use medods_dvortsov.Go.Hex
use medods_dvortsov.Go.Base64
use medods_dvortsov.Go.Strconv.{format_int, parse_int}
use medods_dvortsov.Go.Subtle.{constant_time_compare}
use medods_dvortsov.Models.{time_add, Time}
use medods_dvortsov.Platform.{Platform}
use medods_dvortsov.Platform.Jwt.{JwtClaims, ParserOptions, Token}
use medods_dvortsov.Program.{
  when◌then◌else◌, Action, pure, throw, lift, wrap, ◌>>=◌, time_now, new_uuid, rand_read,
}
use medods_dvortsov.Denylist.{invalidate_token, is_token_invalidated}

-- The fields that are configuration; the storage is the platform's Redis.
pub record TokenService : Type 0 where
  pub jwt_secret_key : List ℕ
  pub access_ttl : ℤ
  pub refresh_ttl : ℤ

abbrev pub raw_token_length : ℕ
raw_token_length = 32

-- Five seconds, in milliseconds.
abbrev pub jwt_leeway : ℕ
jwt_leeway = 5000

abbrev pub hs512 : String
hs512 = "HS512"

-- `rawToken[:n]` and `rawToken[n:]`.
abbrev pub take : ℕ → List ℕ → List ℕ
take zero xs = []
take (suc n) [] = []
take (suc n) (x ∷ xs) = x ∷ take n xs

abbrev pub drop : ℕ → List ℕ → List ℕ
drop zero xs = xs
drop (suc n) [] = []
drop (suc n) (x ∷ xs) = drop n xs

-- The two parts of a refresh token; `none` where `len(parts)` is not two.
abbrev pub two_parts : List String → Option (String × String)
two_parts (a ∷ b ∷ []) = some (a, b)
two_parts _ = none

abbrev pub parser_options : ParserOptions
parser_options = record {
  valid_methods = hs512 ∷ [];
  leeway = jwt_leeway;
  expiration_required = true;
}

module _ (p : Platform) (ts : TokenService) where
  abbrev pub access_claims : ℤ → Time → String → JwtClaims
  access_claims user_id now jti = record {
    user_id = format_int user_id;
    id = jti;
    subject = format_int user_id;
    issued_at = p.jwt.numeric_date now;
    expires_at = some (p.jwt.numeric_date (time_add now ts.access_ttl));
  }

  unfoldable pub create_access_token_with_jti : ℤ → Time → String → Result String
  create_access_token_with_jti user_id now jti =
      wrap_result "signed string"
        (p.jwt.signed_string ts.jwt_secret_key (access_claims user_id now jti))

  -- The token and its new identifier.
  unfoldable pub create_access_token : ℤ → Time → Action p (String × String)
  create_access_token user_id now = do
    jti ← new_uuid p
    token ← lift (create_access_token_with_jti user_id now jti)
    pure (token, jti)

  abbrev pub verifier_hash_of : String → String
  verifier_hash_of verifier = Hex.encode (p.host.sum256 verifier)

  -- The token, its selector and the hash of its verifier, from the random bytes.
  unfoldable pub refresh_token_from : List ℕ → String × String × String
  refresh_token_from raw =
      let selector = Base64.encode (take 16 raw) in
      let verifier = Base64.encode (drop 16 raw) in
      (selector ++ ("." ++ verifier), selector, verifier_hash_of verifier)

  unfoldable pub create_refresh_token : Action p (String × String × String)
  create_refresh_token = do
    raw ← wrap "failed to read random bytes" (rand_read p raw_token_length)
    pure (refresh_token_from raw)

  compare_verifier : String → Option (List ℕ) → Result (Unit {0})
  compare_verifier verifier none =
      err (
        context "failed to decode stored hash" (foreign "encoding/hex: invalid byte or odd length"))
  compare_verifier verifier (some stored) =
      if nat_eq (constant_time_compare (p.host.sum256 verifier) stored) 1
      then ok tt
      else err (text "invalid refresh token")

  check_parts : Option (String × String) → String → Result (Unit {0})
  check_parts none verifier_hash = err (text "invalid token format")
  check_parts (some (_, verifier)) verifier_hash =
      compare_verifier verifier (Hex.decode verifier_hash)

  unfoldable pub validate_refresh_token : String → String → Result (Unit {0})
  unfolding check_parts compare_verifier
  validate_refresh_token token verifier_hash =
      check_parts (two_parts (split b'.' token)) verifier_hash

  -- The key for a token whose header names the method.
  abbrev pub keyfunc : String → Result (List ℕ)
  keyfunc method =
      if method == hs512 then ok ts.jwt_secret_key else err (sentinel invalid_signing_method)

  unfoldable pub is_access_token_invalidated : String → Action p Bool
  is_access_token_invalidated token = wrap "is token invalidated" (is_token_invalidated p token)

  user_id_or_error : Option ℤ → Result ℤ
  user_id_or_error none = err (sentinel invalid_user_id)
  user_id_or_error (some n) = ok n

  -- The checks on a token that the library has parsed.
  unfoldable pub parsed_user_id : Token → Result ℤ
  unfolding user_id_or_error
  parsed_user_id parsed =
      if not parsed.valid
      then err (sentinel token_invalid)
      else if parsed.claims.user_id == ""
      then err (sentinel token_invalid)
      else user_id_or_error (parse_int parsed.claims.user_id)

  -- The signature, the expiry and the claims, after the denylist.
  unfoldable pub parse_user_id : String → Action p ℤ
  parse_user_id token = do
    now ← time_now p
    parsed ←
        wrap "parse token claims" (lift (p.jwt.parse_with_claims parser_options keyfunc now token))
    lift (parsed_user_id parsed)

  unfoldable pub validate_access_token_and_get_user_id : String → Action p ℤ
  validate_access_token_and_get_user_id token = do
    revoked ← wrap "failed to check if token is invalidated" (is_access_token_invalidated token)
    when revoked then throw (sentinel token_revoked) else parse_user_id token

  claims_or_error : Result JwtClaims → Result JwtClaims
  claims_or_error (ok c) = ok c
  claims_or_error (err e) = err (joined token_malformed e)
  claims_or_error panicked = panicked

  -- The claims that the text carries; no signature is checked.
  unfoldable pub get_claims_from_token : String → Result JwtClaims
  unfolding claims_or_error
  get_claims_from_token token = claims_or_error (p.jwt.parse_unverified token)

  -- `claims.ExpiresAt.Time` on a token without the claim is a nil dereference.
  unfoldable pub expires_of : JwtClaims → Result Time
  expires_of c = elim c.expires_at [ none ↦ panicked | some t ↦ ok t ]

  unfoldable pub invalidate_access_token : String → Action p Unit
  invalidate_access_token token = do
    claims ← wrap "get claims from token" (lift (get_claims_from_token token))
    expires ← lift (expires_of claims)
    now ← time_now p
    wrap "invalidate token" (invalidate_token p token (sub_ℕ expires now))
