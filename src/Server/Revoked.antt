-- ===== src/Server/Revoked.antt =====
-- A request with a revoked access token.
use medods_dvortsov.Prelude.{◌≡◌, sym, ap, ◌∙◌, true, Bool, Option, some, find, false}
use medods_dvortsov.Go.Strings.{trim_prefix}
use medods_dvortsov.Platform.{Platform}
use medods_dvortsov.Program.{Db, Worlds}
use medods_dvortsov.Program.Ends.{Ends, OnOk, Ends-wrap_ok, value_of, Ends-weaken_ok}
use medods_dvortsov.Denylist.{invalidated}
use medods_dvortsov.Token.Access.{found_at, validate_revoked}
use medods_dvortsov.Auth.{authenticate_access_token}
use medods_dvortsov.Api.{HttpRequest, EchoContext, bearer_prefix}
use medods_dvortsov.Api.Access.{Identified}
use medods_dvortsov.Server.{
  Api, HttpCall, Operation, logout_operation, issue_tokens_operation, refresh_tokens_operation,
  get_user_guid_operation, Route, is_route_for, register_handlers, base_path, Reply, written,
  refusal, serve,
}
use medods_dvortsov.Server.Guard.{Allowed, Checked, limited, serve-Checked}

-- The operations whose handlers act for the user of an access token.
abbrev pub needs_access : Operation → Bool
needs_access logout_operation = true
needs_access get_user_guid_operation = true
needs_access issue_tokens_operation = false
needs_access refresh_tokens_operation = false

abbrev pub IsRefusal : Reply → Type 0
IsRefusal (written response) = ⊥
IsRefusal (refusal retry status reason) = Unit

same_route : (r s : Route) → ◌≡◌ {A = Option Route} (some r) (some s) → r.operation ≡ s.operation
same_route r s h = cc

module _ (p : Platform) (api : Api p) where
  not-Identified :
      (req : HttpRequest) (w : Worlds p) (ctx : EchoContext)
      → found_at p (trim_prefix req.authorization bearer_prefix) w ≡ some invalidated
      → Identified p api.ts api.webhook_url req w ctx
      → ⊥
  unfolding authenticate_access_token
  not-Identified req w ctx marked h =
      value_of
        (Ends-wrap_ok "access token validation failed" _
          (validate_revoked p api.ts h.token w (rw (← h.carried) marked)))
        h.accepted

  not-Allowed :
      (req : HttpRequest) (w : Worlds p) (e : Db) (operation : Operation)
      → needs_access operation ≡ true
      → found_at p (trim_prefix req.authorization bearer_prefix) w ≡ some invalidated
      → Allowed p api req w e operation
      → ⊥
  not-Allowed req w e logout_operation needs marked (ctx, h) = not-Identified req w ctx marked h
  not-Allowed req w e get_user_guid_operation needs marked (ctx, h) =
      not-Identified req w ctx marked h
  not-Allowed req w e issue_tokens_operation needs marked h = absurd (cc)
  not-Allowed req w e refresh_tokens_operation needs marked h = absurd (cc)

  not-Checked :
      (c : HttpCall) (w : Worlds p) (e : Db) (r : Route) (reply : Reply)
      → find (is_route_for c) (register_handlers base_path) ≡ some r
      → needs_access r.operation ≡ true
      → found_at p (trim_prefix c.request.authorization bearer_prefix) w ≡ some invalidated
      → Checked p api c w e reply
      → IsRefusal reply
  not-Checked c w e r (refusal retry status reason) found needs marked h = tt
  not-Checked c w e r (written response) found needs marked (s, found_s, h) =
      not-Allowed c.request w e s.operation
        (ap needs_access (sym (same_route r s (sym found ∙ found_s))) ∙ needs) marked h

  -- A logout or a request for the user's GUID with an access token on the denylist is refused, whatever
  -- the services answer; a panic aside. The token's key holds the mark, and its time has not run out,
  -- when the rate limiter has let the request through.
  pub serve_revoked :
      (c : HttpCall) (w : Worlds p) (r : Route)
      → find (is_route_for c) (register_handlers base_path) ≡ some r
      → needs_access r.operation ≡ true
      → found_at p (trim_prefix c.request.authorization bearer_prefix) (limited p api c w)
        ≡ some invalidated
      → Ends (serve p api c) w (OnOk λ reply _. IsRefusal reply)
  serve_revoked c w r found needs marked =
      Ends-weaken_ok (serve-Checked p api c w).1
        λ reply v h. not-Checked c (limited p api c w) v.db r reply found needs marked h
