-- ===== src/Auth.antt =====
-- internal/service/auth.go.
pub mod Invariant
pub mod Rotation
pub mod Refresh
pub mod Replay
pub mod Theft
pub mod Progress
pub mod Issuing
pub mod Silent
pub mod Notified
pub mod Presented
pub mod Logout
pub mod Quiet
pub mod Moves
pub mod View
pub mod Steps
pub mod Made
pub mod Permits
pub mod Refined
pub mod Events
pub mod Lifetime
pub mod Race
use medods_dvortsov.Prelude.{
  List, [], ◌∷◌, ◌+◌, String, not, Option, none, some, ℤ, pos, ◌==◌, if◌then◌else◌,
}
use medods_dvortsov.Go.Errors.{
  Caught, returned, failed, text, context, sentinel, session_not_found, errors_is,
}
use medods_dvortsov.Go.Strings.{split}
use medods_dvortsov.Models.{time_add, Time, RefreshSession, UserMetadata}
use medods_dvortsov.Platform.{Platform}
use medods_dvortsov.Program.{
  when◌then◌else◌, Action, Worlds, pure, throw, lift, wrap, attempt, ◌>>=◌, ◌>>◌, time_now,
  new_uuid,
}
use medods_dvortsov.Storage.Users.{get_user_by_id}
use medods_dvortsov.Storage.Sessions.{
  get_active_session_by_selector, find_session_by_selector, delete_all_user_sessions,
}
use medods_dvortsov.Storage.Transactions.{issue_tokens_tx, rotate_tokens_tx}
use medods_dvortsov.Token.{
  TokenService, two_parts, create_access_token_with_jti, create_access_token, create_refresh_token,
  validate_refresh_token, validate_access_token_and_get_user_id, invalidate_access_token,
  get_claims_from_token,
}
use medods_dvortsov.Webhook.{notify_ip_change}

-- The session that both issuing and rotating fill in; its `ID` and `UserID` are zero until stored.
abbrev pub new_session : String → String → UserMetadata → String → Time → Time → RefreshSession
new_session selector verifier_hash meta jti now expires = record {
  id = pos 0;
  user_id = pos 0;
  selector = selector;
  verifier_hash = verifier_hash;
  user_agent = meta.user_agent;
  ip_address = meta.ip_address;
  access_token_jti = jti;
  created_at = now;
  expires_at = expires;
}

-- A call of the service by the layer above, one for each method.
pub data Request : Type 0 where
  issue_call : String → UserMetadata → Request
  refresh_call : String → String → UserMetadata → Request
  logout_call : String → Request
  public_guid_call : ℤ → Request
  authenticate_call : String → Request

module _ (p : Platform) (ts : TokenService) (webhook_url : String) where
  unfoldable pub authenticate_access_token : String → Action p ℤ
  authenticate_access_token token =
      wrap "access token validation failed" (validate_access_token_and_get_user_id p ts token)

  -- The access and the refresh token.
  unfoldable pub issue_tokens : String → UserMetadata → Action p (String × String)
  issue_tokens guid meta = do
    now ← time_now p
    jti ← new_uuid p
    (refresh, selector, verifier_hash) ←
        wrap "failed to create refresh token" (create_refresh_token p ts)
    user ← wrap "failed to execute issue tokens transaction" (
        issue_tokens_tx p guid
          (new_session selector verifier_hash meta jti now (time_add now ts.refresh_ttl)))
    access ←
        wrap "failed to create access token with correct user ID"
          (lift (create_access_token_with_jti p ts user.id now jti))
    pure (access, refresh)

  unfoldable pub revoke_stolen : {A : Type 0} → Caught RefreshSession → Action p A
  revoke_stolen (failed _) = throw (sentinel session_not_found)
  revoke_stolen (returned s) =
      wrap "failed to revoke sessions after theft detection" (delete_all_user_sessions p s.user_id)
      >> throw (text "token reuse detected, all sessions revoked")

  unfoldable pub detect_theft_and_revoke : {A : Type 0} → String → Action p A
  detect_theft_and_revoke selector = do
    found ← attempt (find_session_by_selector p selector)
    revoke_stolen found

  -- The part of `RefreshTokens` behind its checks: new tokens, and the rotation.
  unfoldable pub rotate : String → RefreshSession → UserMetadata → Action p (String × String)
  rotate selector active meta = do
    now ← time_now p
    (new_access, new_jti) ←
        wrap "failed to create new access token" (create_access_token p ts active.user_id now)
    (new_refresh, new_selector, new_hash) ←
        wrap "failed to create new refresh token" (create_refresh_token p ts)
    _ ← wrap "failed to execute rotate tokens transaction" (
        rotate_tokens_tx p selector
          (new_session new_selector new_hash meta new_jti now (time_add now ts.refresh_ttl))
          active.user_id)
    pure (new_access, new_refresh)

  unfoldable pub notify_if_moved : RefreshSession → UserMetadata → Action p Unit
  notify_if_moved active meta =
      when not (active.ip_address == meta.ip_address)
      then notify_ip_change p webhook_url (record {
        user_id = active.user_id;
        old_ip = active.ip_address;
        new_ip = meta.ip_address;
        user_agent = meta.user_agent;
      })
      else pure tt

  -- What `RefreshTokens` does with the active session of the selector.
  unfoldable pub refresh_active :
      String → String → String → UserMetadata → RefreshSession → Action p (String × String)
  refresh_active jti selector refresh_token meta active =
      when not (active.access_token_jti == jti)
      then throw (text "access and refresh tokens do not match")
      else when not (active.user_agent == meta.user_agent)
      then (wrap "failed to revoke sessions after user-agent mismatch"
            (delete_all_user_sessions p active.user_id)
          >> throw (text "user-agent has changed, all sessions revoked"))
      else do
        notify_if_moved active meta
        lift (validate_refresh_token p ts refresh_token active.verifier_hash)
        rotate selector active meta

  unfoldable pub refresh_found :
      String → String → String → UserMetadata → Caught RefreshSession → Action p (String × String)
  refresh_found jti selector refresh_token meta (returned active) =
      refresh_active jti selector refresh_token meta active
  refresh_found jti selector refresh_token meta (failed e) =
      when errors_is e session_not_found
      then detect_theft_and_revoke selector
      else throw (context "failed to get active session" e)

  unfoldable pub refresh_parts :
      String → Option (String × String) → String → UserMetadata → Action p (String × String)
  refresh_parts jti none refresh_token meta = throw (text "invalid refresh token format")
  refresh_parts jti (some (selector, _)) refresh_token meta = do
    found ← attempt (get_active_session_by_selector p selector)
    refresh_found jti selector refresh_token meta found

  unfoldable pub refresh_tokens : String → String → UserMetadata → Action p (String × String)
  refresh_tokens access_token refresh_token meta = do
    claims ← wrap "invalid access token" (lift (get_claims_from_token p ts access_token))
    refresh_parts claims.id (two_parts (split b'.' refresh_token)) refresh_token meta

  unfoldable pub logout : String → Action p Unit
  logout access_token = do
    user_id ←
        wrap "access token validation failed"
          (validate_access_token_and_get_user_id p ts access_token)
    wrap "failed to invalidate access token" (invalidate_access_token p ts access_token)
    wrap "failed to delete all user sessions" (delete_all_user_sessions p user_id)

  unfoldable pub get_public_guid : ℤ → Action p String
  get_public_guid user_id = do
    user ← wrap "get user by id" (get_user_by_id p user_id)
    pure user.guid

  -- The state that a call leaves; what it returns goes to the layer above.
  unfoldable pub handle : Request → Worlds p → Worlds p
  handle (issue_call guid m) w = (issue_tokens guid m w).1
  handle (refresh_call access token m) w = (refresh_tokens access token m w).1
  handle (logout_call access) w = (logout access w).1
  handle (public_guid_call id) w = (get_public_guid id w).1
  handle (authenticate_call access) w = (authenticate_access_token access w).1

  -- One call after another.
  unfoldable pub run : List Request → Worlds p → Worlds p
  run [] w = w
  run (r ∷ rs) w = run rs (handle r w)
