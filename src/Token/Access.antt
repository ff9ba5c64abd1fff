-- ===== src/Token/Access.antt =====
-- Access tokens: a signed token is accepted while it is neither expired nor revoked, and a revoked
-- one is refused.
use medods_dvortsov.Prelude.{
  suc, ◌+◌, ◌<◌, String, ◌≡◌, refl, Bool, true, false, Option, none, some, ℤ, arith, ◌==◌, eq_refl,
  eq_iff,
}
use medods_dvortsov.Go.Errors.{ok, err, sentinel, redis_nil, errors_is}
use medods_dvortsov.Go.Strconv.{format_int, parse_int, IsInt64}
use medods_dvortsov.Go.Strconv.RoundTrip.{parse_int-format_int}
use medods_dvortsov.Models.{time_add, Time}
use medods_dvortsov.Platform.{Platform}
use medods_dvortsov.Platform.Redis.{live}
use medods_dvortsov.Platform.Jwt.{JwtClaims}
use medods_dvortsov.Program.{program, Worlds}
use medods_dvortsov.Program.Ends.{
  Ends, OnOk, Ends-then, Ends-wrap_ok, Ends-ok, Ends-when, Ends-throw, Ends-weaken_ok,
}
use medods_dvortsov.Program.Calls.{lift-Ends, time_now-Ends}
use medods_dvortsov.Denylist.{invalidated, is_token_invalidated, read_mark}
use medods_dvortsov.Token.{
  TokenService, jwt_leeway, access_claims, create_access_token_with_jti,
  is_access_token_invalidated, parsed_user_id, parse_user_id, validate_access_token_and_get_user_id,
  keyfunc, parser_options,
}

-- What Redis holds for the key as the action begins.
abbrev pub found_at : (p : Platform) → String → Worlds p → Option String
found_at p key w = live (p.host.clock w.events) (p.redis.entry w.store key)

parse_int-empty : parse_int "" ≡ none
unfolding parse_int
parse_int-empty = refl

module _ (p : Platform) (ts : TokenService) where
  abbrev pub is_marked : Option String → Bool
  is_marked none = false
  is_marked (some v) = v == invalidated

  -- The denylist's answer is what Redis holds for the token; the check changes nothing.
  pub is_access_token_invalidated-Ends :
      (token : String) (w : Worlds p)
      → Ends (is_access_token_invalidated p ts token) w (λ r w'.
        (w'.db ≡ w.db)
        × (w'.events ≡ suc w.events)
        × (p.redis.entry w'.store ≡ p.redis.entry w.store)
        × OnOk (λ b _. b ≡ is_marked (found_at p token w)) r w')
  unfolding program is_access_token_invalidated is_token_invalidated read_mark errors_is
  is_access_token_invalidated-Ends token w = record {
    post = ground (
      arith,
      p.redis.get-answer w.store (p.host.clock w.events) token,
      p.redis.entry-get w.store (p.host.clock w.events) token,
    );
  }

  -- A token whose revocation is in force is never accepted, whatever the services answer.
  pub validate_revoked :
      (token : String) (w : Worlds p)
      → found_at p token w ≡ some invalidated
      → Ends (validate_access_token_and_get_user_id p ts token) w (OnOk λ _ _. ⊥)
  unfolding validate_access_token_and_get_user_id
  validate_revoked token w h =
      Ends-then _ _ (Ends-wrap_ok _ _ (Ends-ok (is_access_token_invalidated-Ends token w)))
        λ b w₁ k.
          Ends-when _ _ _ (λ revoked. Ends-throw _ tt)
            (λ fine. absurd (ground (arith, eq_refl invalidated)))

  pub signed_of_created :
      (user_id : ℤ) (now : Time) (jti token : String)
      → create_access_token_with_jti p ts user_id now jti ≡ ok token
      → p.jwt.signed_string ts.jwt_secret_key (access_claims p ts user_id now jti) ≡ ok token
  unfolding create_access_token_with_jti
  signed_of_created user_id now jti token h = ground arith

  keyfunc-hs512 : keyfunc p ts "HS512" ≡ ok ts.jwt_secret_key
  keyfunc-hs512 = refl

  parsed_claims :
      (user_id : ℤ) (now : Time) (jti : String)
      → IsInt64 user_id
      → parsed_user_id p ts (record { claims = access_claims p ts user_id now jti; valid = true })
        ≡ ok user_id
  unfolding parsed_user_id
  parsed_claims user_id now jti h =
      ground
        (arith, parse_int-format_int user_id h, eq_iff (format_int user_id) "", parse_int-empty)

  -- The parsing part: the token is read back as its user until it expires.
  parse_user_id_signed :
      (user_id : ℤ) (now : Time) (jti token : String) (w : Worlds p)
      → IsInt64 user_id
      → create_access_token_with_jti p ts user_id now jti ≡ ok token
      → p.host.clock w.events < p.jwt.numeric_date (time_add now ts.access_ttl) + jwt_leeway
      → (parse_user_id p ts token w).0 ≡ ok user_id
  unfolding program parse_user_id
  parse_user_id_signed user_id now jti token w range made fresh =
      let parsed =
        p.jwt.parse-signed parser_options (keyfunc p ts) ts.jwt_secret_key (p.host.clock w.events)
          (p.jwt.numeric_date (time_add now ts.access_ttl)) (access_claims p ts user_id now jti)
          token refl keyfunc-hs512 (p.jwt.numeric_date_idem now) refl
          (p.jwt.numeric_date_idem (time_add now ts.access_ttl)) fresh
          (signed_of_created user_id now jti token made) in
      rw parsed (parsed_claims user_id now jti range)

  -- A token that the service signed is accepted as its user, until it expires and five seconds
  -- longer, if Redis answers that it is not revoked.
  pub validate_signed :
      (user_id : ℤ) (now : Time) (jti token : String) (w : Worlds p)
      → IsInt64 user_id
      → create_access_token_with_jti p ts user_id now jti ≡ ok token
      → p.host.clock (suc w.events) < p.jwt.numeric_date (time_add now ts.access_ttl) + jwt_leeway
      → (p.redis.get w.store (p.host.clock w.events) token).0 ≡ err (sentinel redis_nil)
      → (validate_access_token_and_get_user_id p ts token w).0 ≡ ok user_id
  unfolding program validate_access_token_and_get_user_id is_access_token_invalidated
      is_token_invalidated read_mark errors_is
  validate_signed user_id now jti token w range made fresh absent =
      let w₁ : Worlds p = record w {
        events = suc w.events;
        store = (p.redis.get w.store (p.host.clock w.events) token).1;
      } in
      ground (arith, parse_user_id_signed user_id now jti token w₁ range made fresh)

  parse_user_id_expiry :
      (token : String) (w : Worlds p)
      → Ends (parse_user_id p ts token) w (
          OnOk λ _ _.
            (claims : JwtClaims) × (expires : Time) × (p.jwt.parse_unverified token ≡ ok claims)
            × (claims.expires_at ≡ some expires)
            × (p.host.clock w.events < expires + jwt_leeway))
  unfolding parse_user_id
  parse_user_id_expiry token w = Ends-then _ _ (time_now-Ends p w) λ now w₁ at.
      Ends-then _ _ (Ends-wrap_ok _ _ (lift-Ends _ w₁)) λ parsed w₂ h.
        let (e, has, before) =
          p.jwt.parse_expiry parser_options (keyfunc p ts) now token parsed refl h.0 in
        Ends-weaken_ok (lift-Ends _ w₂)
          λ id v _. (parsed.claims, e, p.jwt.parse-claims _ _ _ _ _ h.0, has, rw (← at.0) before)

  -- An accepted token carries an expiry, which has not passed by more than five seconds.
  pub validate_expiry :
      (token : String) (w : Worlds p)
      → Ends (validate_access_token_and_get_user_id p ts token) w (
          OnOk λ _ _.
            (claims : JwtClaims) × (expires : Time) × (p.jwt.parse_unverified token ≡ ok claims)
            × (claims.expires_at ≡ some expires)
            × (p.host.clock (suc w.events) < expires + jwt_leeway))
  unfolding validate_access_token_and_get_user_id
  validate_expiry token w =
      Ends-then _ _ (Ends-wrap_ok _ _ (Ends-ok (is_access_token_invalidated-Ends token w)))
        λ b w₁ k.
          Ends-when _ _ _ (λ revoked. Ends-throw _ tt)
            (λ fine.
              Ends-weaken_ok (parse_user_id_expiry token w₁)
                λ user_id w₂ (c, e, parsed, has, before). (c, e, parsed, has, rw (← k.1) before))
