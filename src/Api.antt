-- ===== src/Api.antt =====
-- internal/api/error_handler.go, and NewAuthenticator of internal/api/middleware.go. A request is the
-- parts of it that the code reads, and the context the two values that the authenticator leaves for
-- the handler. What the error handler writes is its result.
pub mod Access
use Prim.Native.String.{◌++◌}
use medods_dvortsov.Prelude.{ℕ, String, Bool, ◌||◌, not, Option, none, some, ℤ, ◌==◌, if◌then◌else◌}
use medods_dvortsov.Go.Errors.{
  GoError, http, text, Caught, returned, failed, token_expired, token_invalid, session_not_found,
  errors_is, errors_as_http, error_message,
}
use medods_dvortsov.Go.Strings.{has_prefix, has_suffix, trim_prefix}
use medods_dvortsov.Models.{mw_scheme_api_key_auth, mw_scheme_bearer_auth}
use medods_dvortsov.Platform.{Platform}
use medods_dvortsov.Program.{when◌then◌else◌, Action, pure, throw, wrap, attempt, ◌>>=◌}
use medods_dvortsov.Token.{TokenService}
use medods_dvortsov.ApiKey.{is_valid_api_key}
use medods_dvortsov.Auth.{authenticate_access_token}

pub record HttpRequest : Type 0 where
  pub path : String
  pub api_key_header : String
  pub authorization : String
  pub refresh_cookie : Option String
  pub user_agent : String
  pub real_ip : String

-- The values under MwTokenKey and MwUserIDKey.
pub record EchoContext : Type 0 where
  pub token : Option String
  pub user_id : Option ℤ

abbrev pub empty_context : EchoContext
empty_context = record { token = none; user_id = none }

abbrev pub is_unauthorized_token_error : GoError → Bool
is_unauthorized_token_error e =
    errors_is e token_expired || errors_is e token_invalid || errors_is e session_not_found

abbrev http_or_internal : Option (ℕ × String) → ℕ × String
http_or_internal (some answer) = answer
http_or_internal none = (500, "internal server error")

-- The status and the reason that are written.
unfoldable pub error_response : GoError → ℕ × String
error_response e =
    if is_unauthorized_token_error e
    then (401, error_message e)
    else http_or_internal (errors_as_http e)

-- Nothing is written to a response that is committed.
unfoldable pub error_handler : Bool → GoError → Option (ℕ × String)
error_handler committed e = if committed then none else some (error_response e)

abbrev pub bearer_prefix : String
bearer_prefix = "Bearer "

abbrev pub refresh_path : String
refresh_path = "/auth/tokens/refresh"

module _ (p : Platform) (ts : TokenService) (webhook_url : String) where
  unfoldable pub authenticate_api_key : HttpRequest → Action p EchoContext
  authenticate_api_key req =
      when req.api_key_header == "" then throw (http 401 "API key is missing") else do
        valid ← wrap "failed during api key validation" (is_valid_api_key p req.api_key_header)
        when valid then pure empty_context else throw (http 401 "invalid API key")

  unfoldable pub authenticated : String → Caught ℤ → Action p EchoContext
  authenticated token (failed e) = throw (http 401 (error_message e))
  authenticated token (returned user_id) =
      pure (record { token = some token; user_id = some user_id })

  unfoldable pub authenticate_bearer : HttpRequest → Action p EchoContext
  authenticate_bearer req =
      when has_suffix req.path refresh_path
      then pure empty_context
      else when req.authorization == ""
      then throw (http 401 "Authorization header is missing")
      else when not (has_prefix req.authorization bearer_prefix)
      then throw (http 401 "Authorization header format must be Bearer {token}")
      else do
        checked ← attempt (
            authenticate_access_token p ts webhook_url
              (trim_prefix req.authorization bearer_prefix))
        authenticated (trim_prefix req.authorization bearer_prefix) checked

  unfoldable pub authenticator : String → HttpRequest → Action p EchoContext
  authenticator scheme req =
      when scheme == mw_scheme_api_key_auth
      then authenticate_api_key req
      else when scheme == mw_scheme_bearer_auth
      then authenticate_bearer req
      else throw (text ("unknown security scheme: " ++ scheme))
