-- ===== src/Controller/Statuses.antt =====
-- The statuses that a client of the handlers sees.
use medods_dvortsov.Prelude.{String, ◌≡◌, refl, Option, none, some}
use medods_dvortsov.Go.Errors.{
  http, Result, ok, err, panicked, Caught, returned, failed, errors_is, errors_as_http,
}
use medods_dvortsov.Platform.{Platform}
use medods_dvortsov.Program.{Worlds, throw}
use medods_dvortsov.Program.Ends.{Ends, Ends-pure, Ends-throw, Ends-when, Ends-attempt}
use medods_dvortsov.Token.{TokenService}
use medods_dvortsov.Auth.{refresh_tokens}
use medods_dvortsov.Api.{HttpRequest, error_response}
use medods_dvortsov.Controller.{Response, refreshed, refresh_with_cookie, handle_refresh_tokens}

-- 200, or an error that the error handler answers with 401.
abbrev pub IsOkOrUnauthorized : Result Response → Type 0
IsOkOrUnauthorized (ok r) = r.status ≡ 200
IsOkOrUnauthorized (err e) = (error_response e).0 ≡ 401
IsOkOrUnauthorized panicked = Unit

http_401 : (m : String) → (error_response (http 401 m)).0 ≡ 401
unfolding error_response errors_is errors_as_http
http_401 m = refl

module _ (p : Platform) (ts : TokenService) (webhook_url : String)
    (parse_uuid : String → Option String) where
  refreshed-Ends :
      (r : Caught (String × String)) (w : Worlds p)
      → Ends (refreshed p ts webhook_url parse_uuid r) w (λ r _. IsOkOrUnauthorized r)
  unfolding refreshed
  refreshed-Ends (returned pair) w = Ends-pure _ refl
  refreshed-Ends (failed e) w =
      Ends-when _ _ _ (λ _. Ends-throw _ (http_401 _)) (λ _. Ends-throw _ (http_401 _))

  refresh_with_cookie-Ends :
      (token : String) (req : HttpRequest) (w : Worlds p)
      → Ends
          (refresh_with_cookie p ts webhook_url parse_uuid token req)
          w
          (λ r _. IsOkOrUnauthorized r)
  unfolding refresh_with_cookie
  refresh_with_cookie-Ends token req w =
      Ends-when _ _ _ (λ _. Ends-throw _ (http_401 _))
        λ _.
          Ends-when _ _ _ (λ _. Ends-throw _ (http_401 _))
            λ _.
              Ends-when _ _ _ (λ _. Ends-throw _ (http_401 _))
                λ _.
                  Ends-attempt {Q = λ _ _. Unit} (refresh_tokens p ts webhook_url _ _ _) _
                    (record { post = tt }) (λ pair w₁ _. refreshed-Ends (returned pair) w₁)
                    (λ e w₁ _. refreshed-Ends (failed e) w₁) (λ w₁ _. tt)

  -- The refresh handler answers every request with 200, or with an error of status 401, whatever the
  -- services answer; a panic aside.
  pub handle_refresh_tokens-Ends :
      (req : HttpRequest) (w : Worlds p)
      → Ends (handle_refresh_tokens p ts webhook_url parse_uuid req) w (λ r _. IsOkOrUnauthorized r)
  unfolding handle_refresh_tokens
  handle_refresh_tokens-Ends req w = with_cookie req.refresh_cookie
    where
      with_cookie :
          (c : Option String)
          → Ends
              (elim c [
                | none ↦ throw (http 401 "refresh token not found")
                | some refresh_token ↦
                    refresh_with_cookie p ts webhook_url parse_uuid refresh_token req
              ])
              w
              (λ r _. IsOkOrUnauthorized r)
      with_cookie none = Ends-throw _ (http_401 _)
      with_cookie (some token) = refresh_with_cookie-Ends token req w
