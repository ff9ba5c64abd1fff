-- ===== src/Server/Guard.antt =====
-- Which requests come through to a handler.
use medods_dvortsov.Prelude.{
  ℕ, ◌^◌, ◌<◌, String, pos, ◌≡◌, refl, sym, arith, true, false, Option, none, some, find,
}
use medods_dvortsov.Go.Errors.{http, ok, errors_is, errors_as_http}
use medods_dvortsov.Go.Strings.{has_suffix}
use medods_dvortsov.Go.Strconv.{format_int}
use medods_dvortsov.Models.{mw_scheme_bearer_auth}
use medods_dvortsov.Platform.{Platform}
use medods_dvortsov.Platform.Machine.{answered}
use medods_dvortsov.Platform.Redis.{live}
use medods_dvortsov.Platform.Scripts.{IsExpire}
use medods_dvortsov.Program.{Db, program, Worlds, Action}
use medods_dvortsov.Program.Ends.{
  Ends, OnOk, Ends-pure, Ends-throw, Ends-then, Ends-value, value_of, Ends-weaken_ok, Ends-attempt,
  Ends-ok,
}
use medods_dvortsov.Program.Evolves.{Evolves, Quiet}
use medods_dvortsov.ApiKey.{is_valid_api_key}
use medods_dvortsov.Program.Ends.{any_value}
use medods_dvortsov.Api.{HttpRequest, EchoContext, refresh_path, authenticator, error_response}
use medods_dvortsov.Api.Access.{Identified, authenticator-Identified}
use medods_dvortsov.Limiter.{
  rate_limiter, Admission, admitted, rejected, whole_seconds, int_leb, count_key,
}
use medods_dvortsov.Limiter.Limits.{rate_limiter_over_limit}
use medods_dvortsov.Server.{
  Api, HttpCall, Operation, logout_operation, issue_tokens_operation, refresh_tokens_operation,
  get_user_guid_operation, Route, is_route_for, register_handlers, base_path, Reply, written,
  refusal, invoke, secured, routed, replied, serve,
}
use medods_dvortsov.Server.Quiet.{validate-Quiet, rate_limiter-Quiet}
use medods_dvortsov.Server.Checks.{
  Refreshes, authenticator-is_valid, handle_refresh_tokens-Refreshes, path_of, found-path_of,
}

-- What a request has been checked for when its operation's handler answers it, by the tables of `w`;
-- the answer leaves the tables `e`.
abbrev pub Allowed : (p : Platform) (api : Api p) → HttpRequest → Worlds p → Db → Operation → Type 0
Allowed p api req w e logout_operation =
    (ctx : EchoContext) × Identified p api.ts api.webhook_url req w ctx
Allowed p api req w e issue_tokens_operation = (is_valid_api_key p req.api_key_header w).0 ≡ ok true
Allowed p api req w e refresh_tokens_operation =
    Refreshes p api.ts api.webhook_url api.parse_uuid req w.db e
Allowed p api req w e get_user_guid_operation =
    (ctx : EchoContext) × Identified p api.ts api.webhook_url req w ctx

-- The handler's response goes to a request with a route, whose operation's check has passed on `w`.
abbrev pub Checked : (p : Platform) (api : Api p) → HttpCall → Worlds p → Db → Reply → Type 0
Checked p api c w e (refusal retry status reason) = Unit
Checked p api c w e (written response) =
    (r : Route) × (find (is_route_for c) (register_handlers base_path) ≡ some r)
    × Allowed p api c.request w e r.operation

-- What the rate limiter leaves of a world.
abbrev pub limited : (p : Platform) → Api p → HttpCall → Worlds p → Worlds p
limited p api c w = (rate_limiter p api.scripts api.limiter c.request.real_ip w).1

module _ (p : Platform) (api : Api p) where
  pub let_through :
      (auth : Action p EchoContext) (c : HttpCall) (w : Worlds p) (Q : EchoContext → Type 0)
      → Ends auth w (OnOk λ ctx _. Q ctx)
      → Ends (api.validator.validate auth c) w (OnOk λ ctx _. Q ctx)
  let_through auth c w Q h =
      Ends-weaken_ok (Ends-value (any_value (api.validator.validate auth c) w))
        λ ctx v (_, done). value_of h (api.validator.validate-ok auth c w ctx done)

  whatever :
      {A : Type 0} (m : Action p A) (w : Worlds p) (Q : Type 0) → Q → Ends m w (OnOk λ _ _. Q)
  whatever m w Q q = Ends-weaken_ok (any_value m w) (λ _ _ _. q)

  untouched :
      {A : Type 0} (m : Action p A) (w : Worlds p)
      → Evolves Quiet m
      → Ends m w (OnOk λ _ v. v.db ≡ w.db)
  untouched m w h = Ends-ok {R = λ _ v. v.db ≡ w.db} (record { post = (h.at w).0 })

  pub identified :
      (c : HttpCall) (w : Worlds p)
      → has_suffix c.request.path refresh_path ≡ false
      → Ends
          (api.validator.validate
            (authenticator p api.ts api.webhook_url mw_scheme_bearer_auth c.request)
            c)
          w
          (OnOk λ ctx _. Identified p api.ts api.webhook_url c.request w ctx)
  identified c w elsewhere =
      let_through _ c w _ (authenticator-Identified p api.ts api.webhook_url c.request w elsewhere)

  secured-Allowed :
      (operation : Operation) (c : HttpCall) (w : Worlds p)
      → path_of operation ≡ c.request.path
      → Ends (secured p api operation c) w (OnOk λ _ v. Allowed p api c.request w v.db operation)
  unfolding secured invoke has_suffix
  secured-Allowed logout_operation c w at =
      Ends-then _ _ (identified c w (rw (← at) refl)) λ ctx v h. whatever _ v _ (ctx, h)
  secured-Allowed get_user_guid_operation c w at =
      Ends-then _ _ (identified c w (rw (← at) refl)) λ ctx v h. whatever _ v _ (ctx, h)
  secured-Allowed issue_tokens_operation c w at =
      Ends-then _ _
        (let_through _ c w _ (authenticator-is_valid p api.ts api.webhook_url c.request w))
        λ ctx v h. whatever _ v _ h
  secured-Allowed refresh_tokens_operation c w at =
      Ends-then _ _ (untouched _ w (validate-Quiet p api refresh_tokens_operation c)) λ ctx v same.
        rw (← same)
          (handle_refresh_tokens-Refreshes p api.ts api.webhook_url api.parse_uuid c.request v)

  routed-Allowed :
      (r : Option Route) (c : HttpCall) (w : Worlds p)
      → find (is_route_for c) (register_handlers base_path) ≡ r
      → Ends (routed p api r c) w (OnOk λ response v. Checked p api c w v.db (written response))
  unfolding routed
  routed-Allowed none c w found = Ends-throw _ tt
  routed-Allowed (some r) c w found =
      Ends-weaken_ok (secured-Allowed r.operation c w (found-path_of c r found))
        λ _ _ h. (r, found, h)

  replied-Checked :
      (a : Admission) (c : HttpCall) (w : Worlds p)
      → Ends (replied p api a c) w (OnOk λ reply v. Checked p api c w v.db reply)
  unfolding replied
  replied-Checked (rejected retry e) c w = Ends-pure _ tt
  replied-Checked admitted c w =
      Ends-attempt _ _ (routed-Allowed _ c w (sym (api.router.match-find base_path c)))
        (λ response u h. Ends-pure _ h) (λ e u h. Ends-pure _ tt) (λ u h. tt)

  limited-db : (c : HttpCall) (w : Worlds p) → (limited p api c w).db ≡ w.db
  limited-db c w = ((rate_limiter-Quiet p api c.request.real_ip).at w).0

  -- A handler's response is written only to a request whose route is registered and whose operation's
  -- check has passed on what the rate limiter leaves: for a logout and for the user's GUID, an access
  -- token in the header that AuthenticateAccessToken accepted; for issuing tokens, an API key that
  -- IsValidAPIKey accepted; for a refresh, a cookie and an access token that RefreshTokens granted new
  -- tokens for, with the tables that the answer leaves. Every other request is refused, whatever the services answer; a panic aside. The rate
  -- limiter has left the tables as they were.
  pub serve-Checked :
      (c : HttpCall) (w : Worlds p)
      → ((limited p api c w).db ≡ w.db)
        × Ends (serve p api c) w (OnOk λ reply v. Checked p api c (limited p api c w) v.db reply)
  unfolding serve
  serve-Checked c w = (
    limited-db c w,
    Ends-then _ _ (Ends-ok {R = λ _ v. v ≡ limited p api c w} (record { post = refl }))
        λ a v same. rw same (replied-Checked a c (limited p api c w)),
  )

  http_429 : (m : String) → error_response (http 429 m) ≡ (429, m)
  unfolding error_response errors_is errors_as_http
  http_429 m = refl

  -- A request over the limit is answered with 429 and the block time in Retry-After, and changes no
  -- table: the counter of its address has reached the limit in a window that is open, Redis answers,
  -- and the block time is whole seconds from 1 to below 2 ^ 40.
  pub serve_over_limit :
      (c : HttpCall) (w : Worlds p) (n blocked : ℕ)
      → p.host.reply w.events ≡ answered
      → live (p.host.clock w.events) (p.redis.entry w.store (count_key c.request.real_ip))
        ≡ some (format_int (pos n))
      → n < 2 ^ 53
      → int_leb api.limiter.limit (pos n) ≡ true
      → whole_seconds api.limiter.block_time ≡ pos blocked
      → IsExpire blocked
      → ((serve p api c w).0
          ≡ ok (refusal (some (format_int (pos blocked))) 429 "Too many requests"))
        × ((serve p api c w).1.db ≡ w.db)
  unfolding program serve replied error_response
  serve_over_limit c w n blocked answers counted fits over seconds range =
      let over_limit =
        rate_limiter_over_limit p api.scripts api.limiter c.request.real_ip w n blocked answers
          counted fits over seconds range in
      ground (arith, over_limit, limited-db c w, http_429 "Too many requests")
