-- ===== src/Tests/Requests.antt =====
-- The theorems on requests and responses at concrete inputs.
use medods_dvortsov.Prelude.{◌≡◌, refl, false, some}
use medods_dvortsov.Go.Strings.{has_suffix}
use medods_dvortsov.Models.{mw_scheme_bearer_auth}
use medods_dvortsov.Program.{active}
use medods_dvortsov.Program.Ends.{Ends, OnOk}
use medods_dvortsov.Api.{HttpRequest, authenticator}
use medods_dvortsov.Api.Access.{Identified, authenticator-Identified}
use medods_dvortsov.Controller.{handle_refresh_tokens}
use medods_dvortsov.Controller.Statuses.{IsOkOrUnauthorized, handle_refresh_tokens-Ends}
use medods_dvortsov.Auth.{issue_tokens, refresh_tokens}
use medods_dvortsov.Auth.Presented.{
  Presentable, issue_tokens-Presentable, refresh_tokens-Presentable,
}
use medods_dvortsov.Tests.Sample.{sample_meta, sample, sample_tokens, db_with, world_with, no_keys}

abbrev pub request : HttpRequest
request = record {
  path = "/api/v1/auth/me";
  api_key_header = "";
  authorization = "Bearer jti";
  refresh_cookie = some "sel.ver";
  user_agent = "agent";
  real_ip = "10.0.0.1";
}

handle_refresh_tokens-Ends_example :
    Ends
      (handle_refresh_tokens sample sample_tokens "" (λ s. some s) request)
      (world_with (db_with active) no_keys)
      (λ r _. IsOkOrUnauthorized r)
handle_refresh_tokens-Ends_example =
    handle_refresh_tokens-Ends sample sample_tokens "" (λ s. some s) request
      (world_with (db_with active) no_keys)

elsewhere : has_suffix request.path "/auth/tokens/refresh" ≡ false
unfolding has_suffix
elsewhere = refl

authenticator-Identified_example :
    Ends
      (authenticator sample sample_tokens "" mw_scheme_bearer_auth request)
      (world_with (db_with active) no_keys)
      (OnOk λ ctx _.
        Identified sample sample_tokens "" request (world_with (db_with active) no_keys) ctx)
authenticator-Identified_example =
    authenticator-Identified sample sample_tokens "" request (world_with (db_with active) no_keys)
      elsewhere

issue_tokens-Presentable_example :
    Ends
      (issue_tokens sample sample_tokens "" "guid" sample_meta)
      (world_with (db_with active) no_keys)
      (OnOk λ tokens v. Presentable sample sample_tokens sample_meta v.db tokens)
issue_tokens-Presentable_example =
    issue_tokens-Presentable sample sample_tokens "" "guid" sample_meta
      (world_with (db_with active) no_keys)

refresh_tokens-Presentable_example :
    Ends
      (refresh_tokens sample sample_tokens "" "jti" "sel.ver" sample_meta)
      (world_with (db_with active) no_keys)
      (OnOk λ tokens v. Presentable sample sample_tokens sample_meta v.db tokens)
refresh_tokens-Presentable_example =
    refresh_tokens-Presentable sample sample_tokens "" "jti" "sel.ver" sample_meta
      (world_with (db_with active) no_keys)
