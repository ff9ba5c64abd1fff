-- ===== src/Server/Permits.antt =====
-- The change of the sessions that one HTTP request may make, by its route and by what it carries.
use medods_dvortsov.Prelude.{String, ◌≡◌, ◌≤◌, true, some, find}
use medods_dvortsov.Go.Errors.{ok, returned}
use medods_dvortsov.Go.Strings.{trim_prefix}
use medods_dvortsov.Platform.{Platform}
use medods_dvortsov.Program.{Worlds}
use medods_dvortsov.ApiKey.{is_valid_api_key}
use medods_dvortsov.Auth.{issue_call, refresh_call, logout_call}
use medods_dvortsov.Auth.Moves.{Change, Brings}
use medods_dvortsov.Auth.Steps.{Generated, Generated-mono}
use medods_dvortsov.Auth.Permits.{Permits, Permits-Generated}
use medods_dvortsov.Api.{HttpRequest, bearer_prefix}
use medods_dvortsov.Controller.{metadata}
use medods_dvortsov.Server.{
  Api, HttpCall, Operation, logout_operation, issue_tokens_operation, refresh_tokens_operation,
  get_user_guid_operation, Route, is_route_for, register_handlers, base_path,
}

-- The access token of the request's header.
abbrev pub bearer_of : HttpRequest → String
bearer_of req = trim_prefix req.authorization bearer_prefix

module _ (p : Platform) (api : Api p) where
  -- The change that the operation's call of the service may make in `v`: the call is made of the
  -- request's header, cookie, parameter and metadata, and for issuing tokens the API key is valid.
  abbrev pub Permitted : Operation → HttpCall → Worlds p → Change → Type 0
  Permitted logout_operation c v change =
      Permits p api.ts v (logout_call (bearer_of c.request)) change
  Permitted issue_tokens_operation c v change =
      (guid : String) × (u : Worlds p) × (api.bind_guid c.guid ≡ returned guid)
      × ((is_valid_api_key p c.request.api_key_header u).0 ≡ ok true)
      × Permits p api.ts v (issue_call guid (metadata c.request)) change
  Permitted refresh_tokens_operation c v change =
      (token : String) × (c.request.refresh_cookie ≡ some token)
      × Permits p api.ts v (refresh_call (bearer_of c.request) token (metadata c.request)) change
  Permitted get_user_guid_operation c v change = ⊥

  -- The request has a route, and its operation permits the change on the same tables.
  abbrev pub Serves : HttpCall → Worlds p → Change → Type 0
  Serves c w change =
      (r : Route) × (v : Worlds p) × (find (is_route_for c) (register_handlers base_path) ≡ some r)
      × (v.db ≡ w.db)
      × (w.events ≤ v.events)
      × Permitted r.operation c v change

  Permitted-Generated :
      (o : Operation) (c : HttpCall) (v : Worlds p) (s : String) (change : Change)
      → Permitted o c v change
      → Brings s change
      → Generated p api.ts v s
  Permitted-Generated logout_operation c v s change h brings =
      Permits-Generated p api.ts v (logout_call (bearer_of c.request)) s change h brings
  Permitted-Generated issue_tokens_operation c v s change (guid, u, bound, valid, h) brings =
      Permits-Generated p api.ts v (issue_call guid (metadata c.request)) s change h brings
  Permitted-Generated refresh_tokens_operation c v s change (token, carried, h) brings =
      Permits-Generated p api.ts v (refresh_call (bearer_of c.request) token (metadata c.request)) s
        change h brings
  Permitted-Generated get_user_guid_operation c v s change h brings = absurd h

  -- A selector that a request brings is from the random source.
  pub Serves-Generated :
      (c : HttpCall) (w : Worlds p) (s : String) (change : Change)
      → Serves c w change
      → Brings s change
      → Generated p api.ts w s
  Serves-Generated c w s change (r, v, found, same, later, h) brings =
      Generated-mono p api.ts w v s later (Permitted-Generated r.operation c v s change h brings)
