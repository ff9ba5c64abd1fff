-- ===== src/Api/Access.antt =====
-- What the authenticator guarantees to the handlers behind it.
use medods_dvortsov.Prelude.{String, ◌≡◌, refl, true, false, some, ℤ, arith}
use medods_dvortsov.Go.Errors.{Result, ok, Caught, returned, failed}
use medods_dvortsov.Go.Strings.{has_prefix, has_suffix, trim_prefix}
use medods_dvortsov.Models.{mw_scheme_bearer_auth}
use medods_dvortsov.Platform.{Platform}
use medods_dvortsov.Program.{Worlds}
use medods_dvortsov.Program.Ends.{Ends, OnOk, Ends-pure, Ends-throw, Ends-when, Ends-attempt}
use medods_dvortsov.Token.{TokenService}
use medods_dvortsov.Auth.{authenticate_access_token}
use medods_dvortsov.Api.{
  HttpRequest, EchoContext, bearer_prefix, refresh_path, authenticated, authenticate_bearer,
  authenticator,
}

-- The context names the token of the header, and the user that the service reads from it.
pub record Identified (p : Platform) (ts : TokenService) (webhook_url : String) (req : HttpRequest)
    (w : Worlds p) (ctx : EchoContext) : Type 0 where
  pub user_id : ℤ
  pub token : String
  pub header : has_prefix req.authorization bearer_prefix ≡ true
  pub carried : trim_prefix req.authorization bearer_prefix ≡ token
  pub ctx_token : ctx.token ≡ some token
  pub ctx_user : ctx.user_id ≡ some user_id
  pub accepted : (authenticate_access_token p ts webhook_url token w).0 ≡ ok user_id

abbrev Came : Result ℤ → Caught ℤ → Type 0
Came r (returned a) = r ≡ ok a
Came r (failed e) = Unit

module _ (p : Platform) (ts : TokenService) (webhook_url : String) where
  let_in :
      (req : HttpRequest) (w w₁ : Worlds p) (r : Caught ℤ)
      → has_prefix req.authorization bearer_prefix ≡ true
      → Came
          (authenticate_access_token p ts webhook_url
            (trim_prefix req.authorization bearer_prefix)
            w).0
          r
      → Ends
          (authenticated p ts webhook_url (trim_prefix req.authorization bearer_prefix) r)
          w₁
          (OnOk λ ctx _. Identified p ts webhook_url req w ctx)
  unfolding authenticated
  let_in req w w₁ (failed e) header came = Ends-throw _ tt
  let_in req w w₁ (returned user_id) header came = Ends-pure _ (record {
    user_id = user_id;
    token = trim_prefix req.authorization bearer_prefix;
    header = header;
    carried = refl;
    ctx_token = refl;
    ctx_user = refl;
    accepted = came;
  })

  bearer :
      (req : HttpRequest) (w : Worlds p)
      → has_suffix req.path refresh_path ≡ false
      → Ends
          (authenticate_bearer p ts webhook_url req)
          w
          (OnOk λ ctx _. Identified p ts webhook_url req w ctx)
  unfolding authenticate_bearer
  bearer req w elsewhere =
      Ends-when _ _ _ (λ refreshes. absurd (ground arith))
        λ _.
          Ends-when _ _ _ (λ _. Ends-throw _ tt)
            λ _.
              Ends-when _ _ _ (λ _. Ends-throw _ tt)
                λ header.
                  Ends-attempt
                    {Q = λ r _.
                      (authenticate_access_token p ts webhook_url
                        (trim_prefix req.authorization bearer_prefix) w).0
                      ≡ r}
                    _ _ (record { post = refl })
                    (λ id w₁ came. let_in req w w₁ (returned id) (ground arith) came)
                    (λ e w₁ came. let_in req w w₁ (failed e) (ground arith) tt) (λ w₁ _. tt)

  -- A request that passes the bearer scheme on any path but the refresh path carries an access token
  -- after "Bearer " in its header, AuthenticateAccessToken has accepted that token, and the context
  -- holds the token and the user identifier that was returned.
  pub authenticator-Identified :
      (req : HttpRequest) (w : Worlds p)
      → has_suffix req.path refresh_path ≡ false
      → Ends
          (authenticator p ts webhook_url mw_scheme_bearer_auth req)
          w
          (OnOk λ ctx _. Identified p ts webhook_url req w ctx)
  unfolding authenticator authenticate_bearer
  authenticator-Identified req w elsewhere =
      Ends-when _ _ _ (λ api. absurd (ground arith))
        λ _. Ends-when _ _ _ (λ _. bearer req w elsewhere) (λ other. Ends-throw _ tt)
