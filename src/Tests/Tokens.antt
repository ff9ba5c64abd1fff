-- ===== src/Tests/Tokens.antt =====
-- The theorems on tokens at concrete inputs.
use medods_dvortsov.Prelude.{
  String, ◌≡◌, ◌↔◌, refl, some, pos, ◌+◌, ◌<◌, [], ◌∷◌, arith, Option, none,
}
use medods_dvortsov.Go.Errors.{ok}
use medods_dvortsov.Go.Strings.{split}
use medods_dvortsov.Go.Hex
use medods_dvortsov.Go.Strconv.{format_int}
use medods_dvortsov.Models.{Time}
use medods_dvortsov.Platform.Jwt.{JwtClaims}
use medods_dvortsov.Platform.Redis.{Entry}
use medods_dvortsov.Program.{active}
use medods_dvortsov.Program.Ends.{Ends, OnOk}
use medods_dvortsov.Denylist.{invalidated}
use medods_dvortsov.Token.{
  two_parts, refresh_token_from, create_access_token_with_jti, validate_refresh_token,
  validate_access_token_and_get_user_id, jwt_leeway,
}
use medods_dvortsov.Token.Refresh.{validate_refresh_token_iff, refresh_token_round_trip}
use medods_dvortsov.Token.Access.{validate_revoked, validate_signed, validate_expiry}
use medods_dvortsov.Tests.Sample.{sample, sample_tokens, db_with, world_with, no_keys}

abbrev revoked_keys : String → Option Entry
revoked_keys k = some (record { value = invalidated; deadline = none })

made : create_access_token_with_jti sample sample_tokens (pos 1) 5000 "t" ≡ ok "t"
unfolding create_access_token_with_jti format_int
made = refl

validate_refresh_token_iff_example :
    (validate_refresh_token sample sample_tokens "sel.ver" "00" ≡ ok tt) ↔ (
      (selector : String) × (verifier : String) × (two_parts (split b'.' "sel.ver")
        ≡ some (selector, verifier))
      × (Hex.decode "00" ≡ some (sample.host.sum256 verifier)))
validate_refresh_token_iff_example = validate_refresh_token_iff sample sample_tokens "sel.ver" "00"

refresh_token_round_trip_example :
    let (token, selector, verifier_hash) =
      refresh_token_from sample sample_tokens (1 ∷ 2 ∷ 3 ∷ []) in
    (validate_refresh_token sample sample_tokens token verifier_hash ≡ ok tt)
    × ((verifier : String) × (two_parts (split b'.' token) ≡ some (selector, verifier)))
refresh_token_round_trip_example = refresh_token_round_trip sample sample_tokens (1 ∷ 2 ∷ 3 ∷ [])

validate_signed_example :
    (validate_access_token_and_get_user_id sample sample_tokens "t"
      (world_with (db_with active) no_keys)).0
    ≡ ok (pos 1)
validate_signed_example =
    validate_signed sample sample_tokens (pos 1) 5000 "t" "t" (world_with (db_with active) no_keys)
      (omega arith) made (omega arith) refl

validate_revoked_example :
    Ends
      (validate_access_token_and_get_user_id sample sample_tokens "t")
      (world_with (db_with active) revoked_keys)
      (OnOk λ _ _. ⊥)
validate_revoked_example =
    validate_revoked sample sample_tokens "t" (world_with (db_with active) revoked_keys) refl

validate_expiry_example :
    Ends
      (validate_access_token_and_get_user_id sample sample_tokens "t")
      (world_with (db_with active) no_keys)
      (OnOk λ _ _.
        (claims : JwtClaims) × (expires : Time) × (sample.jwt.parse_unverified "t" ≡ ok claims)
        × (claims.expires_at ≡ some expires)
        × (sample.host.clock 1 < expires + jwt_leeway))
validate_expiry_example =
    validate_expiry sample sample_tokens "t" (world_with (db_with active) no_keys)
