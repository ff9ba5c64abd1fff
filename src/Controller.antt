-- ===== src/Controller.antt =====
-- internal/controller/controller.go. A handler's result is the response that it hands to echo, with
-- the cookie that it sets; a failure to write the response is not modelled.
pub mod Statuses
use medods_dvortsov.Prelude.{
  ℕ, String, Bool, true, false, ◌||◌, not, Option, none, some, ℤ, ◌==◌, if◌then◌else◌,
}
use medods_dvortsov.Go.Errors.{
  GoError, http, Result, ok, panicked, Caught, returned, failed, token_expired, session_not_found,
  errors_is, error_message,
}
use medods_dvortsov.Go.Strings.{has_prefix, trim_prefix}
use medods_dvortsov.Models.{UserMetadata}
use medods_dvortsov.Platform.{Platform}
use medods_dvortsov.Program.{when◌then◌else◌, Action, pure, throw, lift, wrap, attempt, ◌>>=◌, ◌>>◌}
use medods_dvortsov.Token.{TokenService}
use medods_dvortsov.Auth.{issue_tokens, refresh_tokens, logout, get_public_guid}
use medods_dvortsov.Api.{HttpRequest, EchoContext, bearer_prefix}

-- The cookie "refresh_token" that a response sets; clearing gives it no value and an expiry in 1970.
pub record Cookie : Type 0 where
  pub value : String
  pub path : String
  pub http_only : Bool
  pub same_site_strict : Bool
  pub expired : Bool

pub data Body : Type 0 where
  tokens_response : String → Body
  user_guid_response : String → Body
  no_content : Body

pub record Response : Type 0 where
  pub status : ℕ
  pub body : Body
  pub cookie : Option Cookie

abbrev pub set_refresh_cookie : String → Cookie
set_refresh_cookie token = record {
  value = token;
  path = "/api/v1/auth";
  http_only = true;
  same_site_strict = true;
  expired = false;
}

abbrev pub clear_refresh_cookie : Cookie
clear_refresh_cookie = record {
  value = "";
  path = "/api/v1/auth";
  http_only = true;
  same_site_strict = false;
  expired = true;
}

abbrev pub metadata : HttpRequest → UserMetadata
metadata req = record { user_agent = req.user_agent; ip_address = req.real_ip }

abbrev pub with_tokens : String × String → Response
with_tokens (access, refresh) = record {
  status = 200;
  body = tokens_response access;
  cookie = some (set_refresh_cookie refresh);
}

-- `uuid.MustParse` prints what it parses; it panics on another text.
module _ (p : Platform) (ts : TokenService) (webhook_url : String)
    (parse_uuid : String → Option String) where
  unfoldable pub handle_issue_tokens : String → HttpRequest → Action p Response
  handle_issue_tokens guid req = do
    pair ← wrap "issue tokens" (issue_tokens p ts webhook_url guid (metadata req))
    pure (with_tokens pair)

  unfoldable pub refreshed : Caught (String × String) → Action p Response
  refreshed (returned pair) = pure (with_tokens pair)
  refreshed (failed e) =
      when errors_is e session_not_found || errors_is e token_expired
      then throw (http 401 "invalid or expired refresh token")
      else throw (http 401 (error_message e))

  unfoldable pub refresh_with_cookie : String → HttpRequest → Action p Response
  refresh_with_cookie refresh_token req =
      when refresh_token == "" || refresh_token == "null"
      then throw (http 401 "invalid or empty refresh token from cookie")
      else when req.authorization == ""
      then throw (http 401 "Authorization header is missing")
      else when not (has_prefix req.authorization bearer_prefix)
      then throw (http 401 "Authorization header format must be Bearer {token}")
      else do
        result ← attempt (
            refresh_tokens p ts webhook_url (trim_prefix req.authorization bearer_prefix)
              refresh_token (metadata req))
        refreshed result

  unfoldable pub handle_refresh_tokens : HttpRequest → Action p Response
  handle_refresh_tokens req = elim req.refresh_cookie [
    | none ↦ throw (http 401 "refresh token not found")
    | some refresh_token ↦ refresh_with_cookie refresh_token req
  ]

  unfoldable pub logout_with : Option String → Action p Response
  logout_with none = throw (http 401 "access token not found in context")
  logout_with (some token) =
      when token == "" then throw (http 401 "access token not found in context") else do
        wrap "logout" (logout p ts webhook_url token)
        pure (record { status = 204; body = no_content; cookie = some clear_refresh_cookie })

  unfoldable pub handle_logout : EchoContext → Action p Response
  handle_logout ctx = logout_with ctx.token

  must_parse : Option String → Result String
  must_parse none = panicked
  must_parse (some guid) = ok guid

  unfoldable pub guid_of : Option ℤ → Action p Response
  unfolding must_parse
  guid_of none = throw (http 500 "user ID not found in context")
  guid_of (some user_id) = do
    guid ← wrap "get public GUID" (get_public_guid p ts webhook_url user_id)
    printed ← lift (must_parse (parse_uuid guid))
    pure (record { status = 200; body = user_guid_response printed; cookie = none })

  unfoldable pub handle_get_user_guid : EchoContext → Action p Response
  handle_get_user_guid ctx = guid_of ctx.user_id
