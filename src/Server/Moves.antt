-- ===== src/Server/Moves.antt =====
-- What one HTTP request may do to the sessions.
use medods_dvortsov.Prelude.{
  String, ℤ, ◌≡◌, ◌≤◌, refl, sym, ap, ◌∙◌, arith, Option, none, some, find,
}
use medods_dvortsov.Go.Errors.{http, Caught, returned, failed}
use medods_dvortsov.Platform.{Platform}
use medods_dvortsov.Program.{Worlds, Action, throw}
use medods_dvortsov.Program.Evolves.{Evolves, Quiet, quiet_rules}
use medods_dvortsov.Storage.Invariant.{IsValid}
use medods_dvortsov.Auth.Quiet.{get_public_guid-Quiet}
use medods_dvortsov.Auth.Moves.{Change, Move, Move-mono}
use medods_dvortsov.Auth.{
  Request, issue_tokens, refresh_tokens, logout, issue_call, refresh_call, logout_call,
}
use medods_dvortsov.Auth.Permits.{Permits}
use medods_dvortsov.Go.Strings.{has_suffix}
use medods_dvortsov.Api.Access.{Identified}
use medods_dvortsov.Server.Permits.{bearer_of, Permitted, Serves}
use medods_dvortsov.Server.Checks.{authenticator-is_valid, path_of, found-path_of}
use medods_dvortsov.Server.Guard.{let_through, identified}
use medods_dvortsov.Auth.View.{view}
use medods_dvortsov.Auth.Steps.{
  Moves, Moves-bind, Moves-last, Moves-throw, Moves-pure, Moves-wrap, Moves-when, Moves-same,
  Moves-attempt,
}
use medods_dvortsov.Program.Ends.{any_value}
use medods_dvortsov.Auth.Refined.{issue_tokens-Moves, refresh_tokens-Moves, logout-Moves}
use medods_dvortsov.Api.{HttpRequest, EchoContext}
use medods_dvortsov.Controller.{
  Response, metadata, handle_issue_tokens, refreshed, refresh_with_cookie, handle_refresh_tokens,
  logout_with, handle_logout, guid_of, handle_get_user_guid,
}
use medods_dvortsov.Limiter.{Admission, admitted, rejected}
use medods_dvortsov.Server.{
  Api, HttpCall, Operation, logout_operation, issue_tokens_operation, refresh_tokens_operation,
  get_user_guid_operation, Route, is_route_for, register_handlers, base_path, issue_tokens_bound,
  invoke, secured, routed, replied, serve,
}
use medods_dvortsov.Server.Quiet.{validate-Quiet, rate_limiter-Quiet}

module _ (p : Platform) (api : Api p) (K : Change → Type 0) where
  -- A call of the service, whose changes are in `K`.
  called :
      {A : Type 0} (m : Action p A) (r : Request) (w : Worlds p)
      → ((x : Change) → Permits p api.ts w r x → K x)
      → Moves p (Permits p api.ts w r) w (m w).1
      → Moves p K w (m w).1
  called m r w h moves valid = Move-mono h (moves valid)

  bound-Moves :
      (r : Caught String) (req : HttpRequest) (w : Worlds p)
      → ((guid : String) (x : Change)
          → r ≡ returned guid
          → Permits p api.ts w (issue_call guid (metadata req)) x
          → K x)
      → Moves p K w (issue_tokens_bound p api r req w).1
  unfolding issue_tokens_bound handle_issue_tokens
  bound-Moves (failed e) req w allowed = Moves-throw p K _ _ w
  bound-Moves (returned guid) req w allowed =
      Moves-last p K _ _ w
        (Moves-wrap p K _ _ w (
          called (issue_tokens p api.ts api.webhook_url guid (metadata req))
            (issue_call guid (metadata req)) w (λ x h. allowed guid x refl h)
            (issue_tokens-Moves p api.ts api.webhook_url guid (metadata req) w)))
        (λ _. search quiet_rules)

  logout_with-Moves :
      (token : Option String) (w : Worlds p)
      → ((t : String) (x : Change) → token ≡ some t → Permits p api.ts w (logout_call t) x → K x)
      → Moves p K w (logout_with p api.ts api.webhook_url api.parse_uuid token w).1
  unfolding logout_with
  logout_with-Moves none w allowed = Moves-throw p K _ _ w
  logout_with-Moves (some token) w allowed =
      Moves-when p K _ _ _ w (λ _. Moves-throw p K _ _ w)
        λ _.
          Moves-last p K _ _ w
            (Moves-wrap p K _ _ w (
              called (logout p api.ts api.webhook_url token) (logout_call token) w
                (λ x h. allowed token x refl h) (logout-Moves p api.ts api.webhook_url token w)))
            (λ _. search quiet_rules)

  refreshed-Quiet :
      (r : Caught (String × String))
      → Evolves Quiet (refreshed p api.ts api.webhook_url api.parse_uuid r)
  unfolding refreshed
  refreshed-Quiet (returned pair) = search quiet_rules
  refreshed-Quiet (failed e) = search quiet_rules

  refresh_with_cookie-Moves :
      (token : String) (req : HttpRequest) (w : Worlds p)
      → ((x : Change)
          → Permits p api.ts w (refresh_call (bearer_of req) token (metadata req)) x
          → K x)
      → Moves p K w (refresh_with_cookie p api.ts api.webhook_url api.parse_uuid token req w).1
  unfolding refresh_with_cookie
  refresh_with_cookie-Moves token req w allowed =
      Moves-when p K _ _ _ w (λ _. Moves-throw p K _ _ w)
        λ _.
          Moves-when p K _ _ _ w (λ _. Moves-throw p K _ _ w)
            λ _.
              Moves-when p K _ _ _ w (λ _. Moves-throw p K _ _ w)
                λ _.
                  Moves-last p K _ _ w
                    (Moves-attempt p K _ w (
                      called
                        (refresh_tokens p api.ts api.webhook_url (bearer_of req) token
                          (metadata req))
                        (refresh_call (bearer_of req) token (metadata req)) w allowed
                        (refresh_tokens-Moves p api.ts api.webhook_url (bearer_of req) token
                          (metadata req) w)))
                    refreshed-Quiet

  refresh-Moves :
      (req : HttpRequest) (w : Worlds p)
      → ((token : String) (x : Change)
          → req.refresh_cookie ≡ some token
          → Permits p api.ts w (refresh_call (bearer_of req) token (metadata req)) x
          → K x)
      → Moves p K w (handle_refresh_tokens p api.ts api.webhook_url api.parse_uuid req w).1
  unfolding handle_refresh_tokens
  refresh-Moves req w allowed = with_cookie req.refresh_cookie (λ token x e h. allowed token x e h)
    where
      with_cookie :
          (cookie : Option String)
          → ((token : String) (x : Change)
              → cookie ≡ some token
              → Permits p api.ts w (refresh_call (bearer_of req) token (metadata req)) x
              → K x)
          → let act : Action p Response = elim cookie [
            | none ↦ throw (http 401 "refresh token not found")
            | some refresh_token ↦
                refresh_with_cookie p api.ts api.webhook_url api.parse_uuid refresh_token req
          ] in
            Moves p K w (act w).1
      with_cookie none h = Moves-throw p K _ _ w
      with_cookie (some token) h = refresh_with_cookie-Moves token req w (λ x k. h token x refl k)

  guid_of-Quiet :
      (id : Option ℤ) → Evolves Quiet (guid_of p api.ts api.webhook_url api.parse_uuid id)
  unfolding guid_of
  guid_of-Quiet none = search quiet_rules
  guid_of-Quiet (some id) = search (quiet_rules, get_public_guid-Quiet)

  bearer_of_context :
      (c : HttpCall) (w : Worlds p) (ctx : EchoContext) (t : String)
      → Identified p api.ts api.webhook_url c.request w ctx
      → ctx.token ≡ some t
      → t ≡ bearer_of c.request
  bearer_of_context c w ctx t h carried =
      let same : ◌≡◌ {A = Option String} (some t) (some (bearer_of c.request)) =
        sym carried ∙ h.ctx_token ∙ ap (λ (x : String). some x) (sym h.carried) in
      cc

  secured-Moves :
      (operation : Operation) (c : HttpCall) (w : Worlds p)
      → path_of operation ≡ c.request.path
      → ((v : Worlds p) (x : Change)
          → v.db ≡ w.db
          → w.events ≤ v.events
          → Permitted p api operation c v x
          → K x)
      → Moves p K w (secured p api operation c w).1
  unfolding secured invoke handle_logout handle_get_user_guid has_suffix
  secured-Moves logout_operation c w at allowed =
      Moves-bind p K _ _ w _ (validate-Quiet p api logout_operation c)
        (identified p api c w (rw (← at) refl))
        λ ctx v (same, e) h. logout_with-Moves ctx.token v λ t x carried permits.
          allowed v x same e (rw (← bearer_of_context c w ctx t h carried) permits)
  secured-Moves issue_tokens_operation c w at allowed =
      Moves-bind p K _ _ w _ (validate-Quiet p api issue_tokens_operation c)
        (let_through p api _ c w _ (authenticator-is_valid p api.ts api.webhook_url c.request w))
        λ ctx v (same, e) valid.
          bound-Moves (api.bind_guid c.guid) c.request v
            λ guid x bound permits. allowed v x same e (guid, w, bound, valid, permits)
  secured-Moves refresh_tokens_operation c w at allowed =
      Moves-bind p K _ _ w _ (validate-Quiet p api refresh_tokens_operation c) (any_value _ w)
        λ ctx v (same, e) _.
          refresh-Moves c.request v
            λ token x carried permits. allowed v x same e (token, carried, permits)
  secured-Moves get_user_guid_operation c w at allowed =
      Moves-bind p K _ _ w _ (validate-Quiet p api get_user_guid_operation c) (any_value _ w)
        λ ctx v _ _. Moves-same p K _ v (guid_of-Quiet ctx.user_id)

module _ (p : Platform) (api : Api p) (c : HttpCall) (w : Worlds p) where
  routed-Moves :
      (r : Option Route) (v : Worlds p)
      → v.db ≡ w.db
      → w.events ≤ v.events
      → find (is_route_for c) (register_handlers base_path) ≡ r
      → Moves p (Serves p api c w) v (routed p api r c v).1
  unfolding routed
  routed-Moves none v same e found = Moves-throw p _ _ _ v
  routed-Moves (some r) v same e found =
      secured-Moves p api (Serves p api c w) r.operation c v (found-path_of c r found)
        λ u x same' e' permitted. (r, u, found, same' ∙ same, omega (arith, e, e'), permitted)

  replied-Moves :
      (a : Admission) (v : Worlds p)
      → v.db ≡ w.db
      → w.events ≤ v.events
      → Moves p (Serves p api c w) v (replied p api a c v).1
  unfolding replied
  replied-Moves (rejected retry e) v same later = Moves-pure p _ _ _ v
  replied-Moves admitted v same later =
      Moves-last p _ _ _ v
        (Moves-attempt p _ _ v (
          routed-Moves (api.router.match (register_handlers base_path) c) v same later
            (sym (api.router.match-find base_path c))))
        (λ _. search quiet_rules)

  pub serve-Move : IsValid w.db → Move (Serves p api c w) (view w.db) (view (serve p api c w).1.db)
  unfolding serve
  serve-Move =
      Moves-bind p (Serves p api c w) _ _ w _ (rate_limiter-Quiet p api c.request.real_ip)
        (any_value _ w) λ a v (same, e) _. replied-Moves a v same e
