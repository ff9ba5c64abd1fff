-- ===== src/Server/Checks.antt =====
-- What the authenticator and the refresh handler have checked of a request that they let through.
use medods_dvortsov.Prelude.{
  String, ◌≡◌, refl, ap, ◌∙◌, arith, true, Option, none, some, find, eq_iff,
}
use medods_dvortsov.Go.Errors.{http, ok, Caught, returned, failed}
use medods_dvortsov.Go.Strings.{trim_prefix}
use medods_dvortsov.Models.{mw_scheme_api_key_auth}
use medods_dvortsov.Platform.{Platform}
use medods_dvortsov.Program.{Db, Worlds, Action, throw}
use medods_dvortsov.Program.Ends.{
  Ends, OnOk, Held, Ends-pure, Ends-throw, Ends-then, Ends-when, Ends-wrap_ok, Ends-value,
  Ends-attempt,
}
use medods_dvortsov.Token.{TokenService}
use medods_dvortsov.ApiKey.{is_valid_api_key}
use medods_dvortsov.Auth.Refresh.{Granted, refresh_tokens-Granted}
use medods_dvortsov.Program.Ends.{any_value}
use medods_dvortsov.Api.{HttpRequest, bearer_prefix, authenticate_api_key, authenticator}
use medods_dvortsov.Controller.{
  Response, metadata, refreshed, refresh_with_cookie, handle_refresh_tokens,
}
use medods_dvortsov.Server.{
  HttpCall, Operation, logout_operation, issue_tokens_operation, refresh_tokens_operation,
  get_user_guid_operation, Route, is_route_for, register_handlers, base_path,
}

module _ (p : Platform) (ts : TokenService) (webhook_url : String) where
  pub authenticator-is_valid :
      (req : HttpRequest) (w : Worlds p)
      → Ends
          (authenticator p ts webhook_url mw_scheme_api_key_auth req)
          w
          (OnOk λ _ _. (is_valid_api_key p req.api_key_header w).0 ≡ ok true)
  unfolding authenticator authenticate_api_key
  authenticator-is_valid req w =
      Ends-when _ _ _
        (λ _.
          Ends-when _ _ _ (λ _. Ends-throw _ tt)
            λ _.
              Ends-then _ _
                (Ends-wrap_ok _ _
                  (Ends-value (any_value (is_valid_api_key p req.api_key_header) w)))
                λ valid w₁ h.
                  Ends-when _ _ _ (λ yes. Ends-pure _ (h.1 ∙ ap ok yes)) (λ _. Ends-throw _ tt))
        (λ other. absurd (ground arith))

  module _ (parse_uuid : String → Option String) where
    -- The cookie and the header of a request, as RefreshTokens has granted them from the tables `d`,
    -- and left `e`.
    abbrev pub Refreshes : HttpRequest → Db → Db → Type 0
    Refreshes req d e =
        (token : String) × (tokens : String × String) × (req.refresh_cookie ≡ some token)
        × Granted p ts (trim_prefix req.authorization bearer_prefix) token (metadata req) d e tokens

    refreshed-returned :
        (req : HttpRequest) (d : Db) (r : Caught (String × String)) (w : Worlds p)
        → Held (λ _ v. Refreshes req d v.db) r w
        → Ends (refreshed p ts webhook_url parse_uuid r) w (OnOk λ _ v. Refreshes req d v.db)
    unfolding refreshed
    refreshed-returned req d (returned pair) w h = Ends-pure _ h
    refreshed-returned req d (failed e) w h =
        Ends-when _ _ _ (λ _. Ends-throw _ tt) (λ _. Ends-throw _ tt)

    refresh_with_cookie-Refreshes :
        (token : String) (req : HttpRequest) (w : Worlds p)
        → req.refresh_cookie ≡ some token
        → Ends
            (refresh_with_cookie p ts webhook_url parse_uuid token req)
            w
            (OnOk λ _ v. Refreshes req w.db v.db)
    unfolding refresh_with_cookie
    refresh_with_cookie-Refreshes token req w carried =
        Ends-when _ _ _ (λ _. Ends-throw _ tt)
          λ _.
            Ends-when _ _ _ (λ _. Ends-throw _ tt)
              λ _.
                Ends-when _ _ _ (λ _. Ends-throw _ tt)
                  λ _.
                    Ends-attempt _ _
                      (refresh_tokens-Granted p ts webhook_url
                        (trim_prefix req.authorization bearer_prefix) token (metadata req) w)
                      (λ pair v h.
                        refreshed-returned req w.db (returned pair) v (token, pair, carried, h))
                      (λ e v h. refreshed-returned req w.db (failed e) v tt) (λ v h. tt)

    pub handle_refresh_tokens-Refreshes :
        (req : HttpRequest) (w : Worlds p)
        → Ends
            (handle_refresh_tokens p ts webhook_url parse_uuid req)
            w
            (OnOk λ _ v. Refreshes req w.db v.db)
    unfolding handle_refresh_tokens
    handle_refresh_tokens-Refreshes req w = with_cookie req.refresh_cookie refl
      where
        with_cookie :
            (cookie : Option String)
            → req.refresh_cookie ≡ cookie
            → let act : Action p Response = elim cookie [
              | none ↦ throw (http 401 "refresh token not found")
              | some refresh_token ↦
                  refresh_with_cookie p ts webhook_url parse_uuid refresh_token req
            ] in
              Ends act w (OnOk λ _ v. Refreshes req w.db v.db)
        with_cookie none carried = Ends-throw _ tt
        with_cookie (some token) carried = refresh_with_cookie-Refreshes token req w carried

abbrev pub path_of : Operation → String
path_of logout_operation = "/api/v1/auth/logout"
path_of issue_tokens_operation = "/api/v1/auth/tokens"
path_of refresh_tokens_operation = "/api/v1/auth/tokens/refresh"
path_of get_user_guid_operation = "/api/v1/auth/user/guid"

pub found-path_of :
    (c : HttpCall) (r : Route)
    → find (is_route_for c) (register_handlers base_path) ≡ some r
    → path_of r.operation ≡ c.request.path
found-path_of c r h = ground (
  arith,
  eq_iff "/api/v1/auth/logout" c.request.path,
  eq_iff "/api/v1/auth/tokens" c.request.path,
  eq_iff "/api/v1/auth/tokens/refresh" c.request.path,
  eq_iff "/api/v1/auth/user/guid" c.request.path,
)
