-- ===== src/Auth/Theft.antt =====
-- RefreshTokens on each way a refresh token can be presented wrongly, and its answer.
use medods_dvortsov.Prelude.{
  suc, String, ◌≡◌, Option, none, some, List, not, if◌then◌else◌, arith, find, reject, ◌==◌,
}
use medods_dvortsov.Go.Errors.{
  GoError, Result, ok, err, text, sentinel, session_not_found, errors_is,
}
use medods_dvortsov.Go.Strings.{split}
use medods_dvortsov.Models.{UserMetadata}
use medods_dvortsov.Platform.{Platform}
use medods_dvortsov.Platform.Machine.{answered}
use medods_dvortsov.Platform.Jwt.{JwtClaims}
use medods_dvortsov.Program.{program, SessionRow, Worlds}
use medods_dvortsov.Storage.Statements.{
  is_active_with, is_session_of, has_selector, select_active_session, select_session,
  delete_user_sessions,
}
use medods_dvortsov.Storage.Users.{run_statement}
use medods_dvortsov.Storage.Sessions.{
  session_or_error, get_active_session_by_selector, find_session_by_selector,
  delete_all_user_sessions,
}
use medods_dvortsov.Token.{TokenService, two_parts, get_claims_from_token, validate_refresh_token}
use medods_dvortsov.Webhook.{notify_ip_change}
use medods_dvortsov.Auth.{
  revoke_stolen, detect_theft_and_revoke, notify_if_moved, refresh_active, refresh_found,
  refresh_parts, refresh_tokens,
}

-- How a presented token is judged against the sessions: `none` to renew it, or the error and the
-- sessions that are left. `check` is the comparison with a stored hash.
abbrev pub verdict :
    String
    → String
    → String
    → (String → Result (Unit {0}))
    → List SessionRow
    → Option (GoError × List SessionRow)
verdict selector jti agent check rows = elim (find (is_active_with selector) rows) [
  | none ↦ elim (find (has_selector selector) rows) [
    | none ↦ some (sentinel session_not_found, rows)
    | some row ↦ some (
      text "token reuse detected, all sessions revoked",
      reject (is_session_of row.session.user_id) rows,
    )
  ]
  | some row ↦
      if not (row.session.access_token_jti == jti)
      then some (text "access and refresh tokens do not match", rows)
      else if not (row.session.user_agent == agent)
      then some (
        text "user-agent has changed, all sessions revoked",
        reject (is_session_of row.session.user_id) rows,
      )
      else elim (check row.session.verifier_hash) [ err e ↦ some (e, rows) | _ ↦ none ]
]

module _ (p : Platform) (ts : TokenService) (webhook_url : String) where
  -- While the database answers, RefreshTokens refuses a refresh token as `verdict` says, with that
  -- error and those sessions left; a token whose selector is known and used, and one that comes with
  -- another user agent, deletes every session of its user.
  pub refresh_tokens_refused :
      (access_token refresh_token selector verifier : String) (meta : UserMetadata) (w : Worlds p)
      (claims : JwtClaims) (e : GoError) (rows : List SessionRow)
      → p.jwt.parse_unverified access_token ≡ ok claims
      → two_parts (split b'.' refresh_token) ≡ some (selector, verifier)
      → p.host.reply w.events ≡ answered
      → p.host.reply (suc w.events) ≡ answered
      → p.host.reply (suc (suc w.events)) ≡ answered
      → verdict selector claims.id meta.user_agent
          (validate_refresh_token p ts refresh_token)
          w.db.sessions
        ≡ some (e, rows)
      → ((refresh_tokens p ts webhook_url access_token refresh_token meta w).0 ≡ err e)
        × ((refresh_tokens p ts webhook_url access_token refresh_token meta w).1.db
            ≡ record w.db { sessions = rows })
  unfolding program refresh_tokens refresh_parts refresh_found refresh_active
      detect_theft_and_revoke revoke_stolen notify_if_moved notify_ip_change get_claims_from_token
      get_active_session_by_selector find_session_by_selector delete_all_user_sessions
      session_or_error run_statement select_active_session select_session delete_user_sessions
      errors_is
  refresh_tokens_refused access_token refresh_token selector verifier meta w claims e rows claimed
        parts one two three judged =
      ground arith
