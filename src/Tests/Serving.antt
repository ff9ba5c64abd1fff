-- ===== src/Tests/Serving.antt =====
-- A server over the sample platform, and the theorems on requests that it serves at concrete inputs.
use medods_dvortsov.Prelude.{
  inl, if◌then◌else◌, ◌==◌, pos, String, ◌≡◌, refl, some, none, arith, Option, find,
}
use medods_dvortsov.Go.Errors.{ok, http, Caught, returned, failed, foreign}
use medods_dvortsov.Go.Strconv.{format_int}
use medods_dvortsov.Program.Ends.{Ends, OnOk}
use medods_dvortsov.Server.{
  Api, EchoRouter, RequestValidator, HttpCall, is_route_for, refusal, serve,
}
use medods_dvortsov.Server.Guard.{Checked, limited, serve-Checked, serve_over_limit}
use medods_dvortsov.Platform.Redis.{Entry}
use medods_dvortsov.Denylist.{invalidated}
use medods_dvortsov.Token.Access.{found_at}
use medods_dvortsov.Api.{bearer_prefix}
use medods_dvortsov.Go.Strings.{trim_prefix}
use medods_dvortsov.Program.{Worlds, active, program}
use medods_dvortsov.Limiter.{rate_limiter, run_script, limiter_script, count, set_window}
use medods_dvortsov.Server.{Route, route, logout_operation}
use medods_dvortsov.Server.Revoked.{IsRefusal, serve_revoked}
use medods_dvortsov.Tests.Sample.{sample, sample_tokens, db_with, world_with}
use medods_dvortsov.Tests.Service.{url, before}
use medods_dvortsov.Tests.Limits.{sample_scripts, two_a_window, over_limit}
use medods_dvortsov.Tests.Requests.{request}

abbrev pub static_router : EchoRouter
static_router = record {
  match = λ rs c. find (is_route_for c) rs;
  unrouted = λ c. http 404 "Not Found";
  match-find = λ base c. refl;
}

-- It checks nothing but the security requirement.
abbrev pub lenient : RequestValidator sample
lenient = record {
  validate = λ auth c. auth;
  validate-ok = λ auth c w ctx h. h;
  validate-world = λ auth c w. inl refl;
}

abbrev pub given_guid : Option String → Caught String
given_guid none = failed (foreign "query parameter 'guid' is required")
given_guid (some guid) = returned guid

abbrev pub sample_api : Api sample
sample_api = record {
  ts = sample_tokens;
  webhook_url = url;
  scripts = sample_scripts;
  limiter = two_a_window;
  router = static_router;
  validator = lenient;
  parse_uuid = λ s. some s;
  bind_guid = given_guid;
}

abbrev pub logout_request : HttpCall
logout_request = record {
  verb = "POST";
  guid = none;
  request = record request { path = "/api/v1/auth/logout" };
}

serve-Checked_example :
    ((limited sample sample_api logout_request before).db ≡ before.db)
    × Ends (serve sample sample_api logout_request) before (
        OnOk λ reply v.
          Checked sample sample_api logout_request
            (limited sample sample_api logout_request before)
            v.db
            reply)
serve-Checked_example = serve-Checked sample sample_api logout_request before

serve_over_limit_example :
    ((serve sample sample_api logout_request over_limit).0
      ≡ ok (refusal (some (format_int (pos 60))) 429 "Too many requests"))
    × ((serve sample sample_api logout_request over_limit).1.db ≡ over_limit.db)
serve_over_limit_example =
    serve_over_limit sample sample_api logout_request over_limit 2 60 refl refl (omega arith) refl
      refl (omega arith, omega arith)

-- The access token of the request has been revoked.
abbrev revoked_keys : String → Option Entry
revoked_keys k =
    if k == "jti" then some (record { value = invalidated; deadline = some 65000 }) else none

abbrev with_revoked : Worlds sample
with_revoked = world_with (db_with active) revoked_keys

abbrev logout_route : Route
logout_route = route "POST" "/api/v1/auth/logout" logout_operation

still_revoked :
    found_at sample
      (trim_prefix "Bearer jti" bearer_prefix)
      (limited sample sample_api logout_request with_revoked)
    ≡ some invalidated
unfolding program rate_limiter run_script limiter_script count set_window trim_prefix format_int
still_revoked = refl

serve_revoked_example :
    Ends (serve sample sample_api logout_request) with_revoked (OnOk λ reply _. IsRefusal reply)
serve_revoked_example =
    serve_revoked sample sample_api logout_request with_revoked logout_route refl refl still_revoked
