-- ===== src/Server.antt =====
-- The HTTP server: API.Run of internal/api/api.go, which puts the rate limiter and the request
-- validator before the routes, and the routes and wrappers of internal/controller/controller.gen.go.
-- echo's router and the validator of oapi-codegen are parameters.
pub mod Quiet
pub mod Checks
pub mod Guard
pub mod Revoked
pub mod Permits
pub mod Moves
pub mod Onward
use Prim.Native.String.{◌++◌}
use medods_dvortsov.Prelude.{
  ◌⊎◌, ℕ, String, Bool, true, false, ◌&&◌, not, Option, none, some, List, [], ◌∷◌, find, ◌==◌, ◌≡◌,
  if◌then◌else◌,
}
use medods_dvortsov.Go.Errors.{
  GoError, http, Result, ok, err, Caught, returned, failed, error_message,
}
use medods_dvortsov.Models.{mw_scheme_api_key_auth, mw_scheme_bearer_auth}
use medods_dvortsov.Platform.{Platform}
use medods_dvortsov.Platform.Scripts.{RedisScripts}
use medods_dvortsov.Program.{Action, Worlds, pure, throw, attempt, ◌>>=◌}
use medods_dvortsov.Token.{TokenService}
use medods_dvortsov.Api.{HttpRequest, EchoContext, authenticator, error_response}
use medods_dvortsov.Controller.{
  Response, handle_issue_tokens, handle_refresh_tokens, handle_logout, handle_get_user_guid,
}
use medods_dvortsov.Limiter.{RateLimiterConfig, Admission, admitted, rejected, rate_limiter}

-- The methods of `ServerInterface`.
pub data Operation : Type 0 where
  logout_operation : Operation
  issue_tokens_operation : Operation
  refresh_tokens_operation : Operation
  get_user_guid_operation : Operation

pub record Route : Type 0 where
  pub verb : String
  pub path : String
  pub operation : Operation

abbrev pub route : String → String → Operation → Route
route verb path operation = record { verb = verb; path = path; operation = operation }

-- `RegisterHandlersWithBaseURL`, or `RegisterHandlers` on a group with the prefix.
abbrev pub register_handlers : String → List Route
register_handlers base_url =
    route "POST" (base_url ++ "/auth/logout") logout_operation
    ∷ route "POST" (base_url ++ "/auth/tokens") issue_tokens_operation
    ∷ route "POST" (base_url ++ "/auth/tokens/refresh") refresh_tokens_operation
    ∷ route "GET" (base_url ++ "/auth/user/guid") get_user_guid_operation
    ∷ []

-- The security scheme of an operation: the scopes that its wrapper sets.
abbrev pub scheme_of : Operation → String
scheme_of logout_operation = mw_scheme_bearer_auth
scheme_of issue_tokens_operation = mw_scheme_api_key_auth
scheme_of refresh_tokens_operation = mw_scheme_bearer_auth
scheme_of get_user_guid_operation = mw_scheme_bearer_auth

-- A request, with its method and the parameter "guid" of its query.
pub record HttpCall : Type 0 where
  pub verb : String
  pub guid : Option String
  pub request : HttpRequest

abbrev pub is_route_for : HttpCall → Route → Bool
is_route_for c r = r.verb == c.verb && r.path == c.request.path

-- echo's router, and the error for a request that has no route.
pub record EchoRouter : Type 0 where
  pub match : List Route → HttpCall → Option Route
  pub unrouted : HttpCall → GoError
  -- The routes have no parameters, and no two have one path: a request has the one under its method
  -- and path, or none.
  pub match-find :
      (base_url : String) (c : HttpCall)
      → match (register_handlers base_url) c ≡ find (is_route_for c) (register_handlers base_url)

-- The validator around an `AuthenticationFunc`, which it calls for the security requirement of a
-- request's operation before it looks at the rest of the request.
pub record RequestValidator (p : Platform) : Type 0 where
  pub validate : Action p EchoContext → HttpCall → Action p EchoContext
  -- A request that it lets in was let in by the function.
  pub validate-ok :
      (auth : Action p EchoContext) (c : HttpCall) (w : Worlds p) (ctx : EchoContext)
      → (validate auth c w).0 ≡ ok ctx
      → (auth w).0 ≡ ok ctx
  -- It makes no calls of its own, and may refuse a request without calling the function.
  pub validate-world :
      (auth : Action p EchoContext) (c : HttpCall) (w : Worlds p)
      → ((validate auth c w).1 ≡ (auth w).1) ⊎ ((validate auth c w).1 ≡ w)

-- What the server is put together from.
pub record Api (p : Platform) : Type 0 where
  pub ts : TokenService
  pub webhook_url : String
  pub scripts : RedisScripts p.redis
  pub limiter : RateLimiterConfig
  pub router : EchoRouter
  pub validator : RequestValidator p
  -- `uuid.MustParse`, and the binding of the parameter "guid" to a UUID.
  pub parse_uuid : String → Option String
  pub bind_guid : Option String → Caught String

-- What the client gets: a handler's response, or the header Retry-After with the status and the
-- reason that the error handler writes.
pub data Reply : Type 0 where
  written : Response → Reply
  refusal : Option String → ℕ → String → Reply

abbrev error_reply : Option String → ℕ × String → Reply
error_reply retry (status, reason) = refusal retry status reason

abbrev pub reply_of : Caught Response → Reply
reply_of (returned r) = written r
reply_of (failed e) = error_reply none (error_response e)

abbrev pub base_path : String
base_path = "/api/v1"

module _ (p : Platform) (api : Api p) where
  -- `ServerInterfaceWrapper.IssueTokens` behind the binding of its parameter.
  unfoldable pub issue_tokens_bound : Caught String → HttpRequest → Action p Response
  issue_tokens_bound (failed e) req =
      throw (http 400 ("Invalid format for parameter guid: " ++ error_message e))
  issue_tokens_bound (returned guid) req =
      handle_issue_tokens p api.ts api.webhook_url api.parse_uuid guid req

  -- The wrappers' calls of the handlers.
  unfoldable pub invoke : Operation → EchoContext → HttpCall → Action p Response
  invoke logout_operation ctx c = handle_logout p api.ts api.webhook_url api.parse_uuid ctx
  invoke issue_tokens_operation ctx c = issue_tokens_bound (api.bind_guid c.guid) c.request
  invoke refresh_tokens_operation ctx c =
      handle_refresh_tokens p api.ts api.webhook_url api.parse_uuid c.request
  invoke get_user_guid_operation ctx c =
      handle_get_user_guid p api.ts api.webhook_url api.parse_uuid ctx

  unfoldable pub secured : Operation → HttpCall → Action p Response
  secured operation c = do
    ctx ←
        api.validator.validate
          (authenticator p api.ts api.webhook_url (scheme_of operation) c.request) c
    invoke operation ctx c

  unfoldable pub routed : Option Route → HttpCall → Action p Response
  routed none c = throw (api.router.unrouted c)
  routed (some r) c = secured r.operation c

  -- The reply to a request that the rate limiter has judged.
  unfoldable pub replied : Admission → HttpCall → Action p Reply
  replied (rejected retry e) c = pure (error_reply (some retry) (error_response e))
  replied admitted c = do
    result ← attempt (routed (api.router.match (register_handlers base_path) c) c)
    pure (reply_of result)

  unfoldable pub serve : HttpCall → Action p Reply
  serve c = do
    admission ← rate_limiter p api.scripts api.limiter c.request.real_ip
    replied admission c
