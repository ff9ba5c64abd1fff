-- ===== src/Server/Quiet.antt =====
-- What the server does before a handler changes no table.
use medods_dvortsov.Prelude.{String, ℤ, refl, arith, inl, inr}
use medods_dvortsov.Go.Errors.{Result, Caught, returned, failed}
use medods_dvortsov.Models.{Time}
use medods_dvortsov.Platform.{Platform}
use medods_dvortsov.Platform.Machine.{Reply-cases}
use medods_dvortsov.Program.Evolves.{Evolves, Quiet, Quiet-refl, quiet_rules}
use medods_dvortsov.Token.{TokenService}
use medods_dvortsov.ApiKey.{value_or_empty, within_grace, check_old, is_valid_api_key}
use medods_dvortsov.Auth.Quiet.{authenticate-Quiet}
use medods_dvortsov.Api.{
  HttpRequest, authenticate_api_key, authenticated, authenticate_bearer, authenticator,
}
use medods_dvortsov.Limiter.{run_script, rate_limiter}
use medods_dvortsov.Server.{Api, HttpCall, Operation, scheme_of}

module _ (p : Platform) where
  value_or_empty-Quiet : (m : String) (r : Caught String) → Evolves Quiet (value_or_empty p m r)
  unfolding value_or_empty
  value_or_empty-Quiet m (returned v) = search quiet_rules
  value_or_empty-Quiet m (failed e) = search quiet_rules

  within_grace-Quiet : Evolves Quiet (within_grace p)
  unfolding within_grace
  within_grace-Quiet = search quiet_rules

  check_old-Quiet : (hashed : String) → Evolves Quiet (check_old p hashed)
  unfolding check_old
  check_old-Quiet hashed = search (quiet_rules, value_or_empty-Quiet, within_grace-Quiet)

  is_valid_api_key-Quiet : (key : String) → Evolves Quiet (is_valid_api_key p key)
  unfolding is_valid_api_key
  is_valid_api_key-Quiet key = search (quiet_rules, value_or_empty-Quiet, check_old-Quiet) depth 10

module _ (p : Platform) (ts : TokenService) (webhook_url : String) where
  authenticate_api_key-Quiet :
      (req : HttpRequest) → Evolves Quiet (authenticate_api_key p ts webhook_url req)
  unfolding authenticate_api_key
  authenticate_api_key-Quiet req = search (quiet_rules, is_valid_api_key-Quiet)

  authenticated-Quiet :
      (token : String) (r : Caught ℤ) → Evolves Quiet (authenticated p ts webhook_url token r)
  unfolding authenticated
  authenticated-Quiet token (returned id) = search quiet_rules
  authenticated-Quiet token (failed e) = search quiet_rules

  authenticate_bearer-Quiet :
      (req : HttpRequest) → Evolves Quiet (authenticate_bearer p ts webhook_url req)
  unfolding authenticate_bearer
  authenticate_bearer-Quiet req =
      search (quiet_rules, authenticate-Quiet, authenticated-Quiet) depth 10

  authenticator-Quiet :
      (scheme : String) (req : HttpRequest)
      → Evolves Quiet (authenticator p ts webhook_url scheme req)
  unfolding authenticator
  authenticator-Quiet scheme req =
      search (quiet_rules, authenticate_api_key-Quiet, authenticate_bearer-Quiet)

module _ (p : Platform) (api : Api p) where
  pub validate-Quiet :
      (operation : Operation) (c : HttpCall)
      → Evolves Quiet (
          api.validator.validate
            (authenticator p api.ts api.webhook_url (scheme_of operation) c.request)
            c)
  validate-Quiet operation c =
      let auth = authenticator p api.ts api.webhook_url (scheme_of operation) c.request in
      record {
        at = λ w. elim (api.validator.validate-world auth c w) [
          | inl called ↦
              rw called (
                (authenticator-Quiet p api.ts api.webhook_url (scheme_of operation) c.request).at w)
          | inr refused ↦ rw refused (Quiet-refl w)
        ];
      }

  run_script-Quiet :
      (script : Time → p.redis.Store → Result ℤ × p.redis.Store)
      → Evolves Quiet (run_script p api.scripts script)
  unfolding run_script
  run_script-Quiet script = record {
    at = λ w. elim (Reply-cases (p.host.reply w.events)) [
      | inl (inl e) ↦ rw (e, run_script) (refl, omega arith)
      | inl (inr (m, e)) ↦ rw (e, run_script) (refl, omega arith)
      | inr (m, e) ↦ rw (e, run_script) (refl, omega arith)
    ];
  }

  pub rate_limiter-Quiet : (ip : String) → Evolves Quiet (rate_limiter p api.scripts api.limiter ip)
  unfolding rate_limiter
  rate_limiter-Quiet ip = search (quiet_rules, run_script-Quiet)
