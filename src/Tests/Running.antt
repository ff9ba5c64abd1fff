-- ===== src/Tests/Running.antt =====
-- The process on the sample platform: a start, and a run to its end.
use mathlib.Core.List.{Perm}
use medods_dvortsov.Prelude.{
  false, ◌≡◌, refl, ◌⊎◌, some, true, [], ◌∷◌, ◌≤◌, ◌+◌, ◌==◌, if◌then◌else◌, arith, pos,
}
use medods_dvortsov.Go.Errors.{ok}
use medods_dvortsov.Go.Hex
use medods_dvortsov.Storage.Invariant.{IsValid}
use medods_dvortsov.Program.{program, Worlds}
use medods_dvortsov.Program.Ends.{Ends, OnOk}
use medods_dvortsov.ApiKey.{hash_api_key, sync_api_key, sync_against, is_valid_api_key}
use medods_dvortsov.ApiKey.Accepted.{OneOf}
use medods_dvortsov.Config.{
  new_server_config, Environment, TokenConfig, new_token_config, parse_duration_or_default,
}
use medods_dvortsov.Process.Startup.{
  Outside, ApiServer, required, new_db_connection, run_migrations, new_redis_client, start,
}
use medods_dvortsov.Process.Started.{configured, start-accepts, process-Ordered}
use medods_dvortsov.Process.Shutdown.{
  Process, ended, database, redis_client, launched, accept, answer, shut_down, stopped, clean_up,
  linger, exit, Run, here, next, arrives, is_answered, is_drained, closes, has_closed, wakes,
  shutdown_timeout,
}
use medods_dvortsov.Process.Order.{Ordered}
use medods_dvortsov.Process.Ending.{requests, calls_of, shutdown_answers}
use medods_dvortsov.Tests.Sample.{sample}
use medods_dvortsov.Tests.Service.{before-IsValid}
use medods_dvortsov.Tests.Keys.{old_keys, old_keys-IsLasting}
use medods_dvortsov.Tests.Keys
use medods_dvortsov.Tests.Limits.{sample_scripts}
use medods_dvortsov.Tests.Settings.{exact}
use medods_dvortsov.Tests.Serving.{static_router, lenient, given_guid, logout_request}

abbrev sample_outside : Outside sample
sample_outside = record {
  sql_open = λ dsn. ok tt;
  ping = λ dsn w. (ok tt, w);
  goose_up = λ dir w. (ok tt, w);
  get_swagger = ok tt;
  ping_keeps = λ dsn w. (refl, refl);
  goose_keeps = λ dir w. (refl, refl);
  scaled = exact;
  scripts = sample_scripts;
  router = static_router;
  validator = lenient;
  parse_uuid = λ s. some s;
  bind_guid = given_guid;
}

abbrev sample_env : Environment
sample_env name =
    if name == "DATABASE_URL"
    then "postgres://db"
    else if name == "REDIS_ADDR"
    then "redis:6379"
    else if name == "AUTH_SERVICE_API_KEY"
    then "new key"
    else if name == "JWT_SECRET"
    then "secret"
    else ""

abbrev tokens : TokenConfig
tokens = record {
  jwt_secret_key = "secret";
  access_ttl = pos 900000000000;
  refresh_ttl = pos 86400000000000;
}

abbrev sample_server : ApiServer sample
sample_server = configured sample sample_outside sample_env tokens

abbrev listening_world : Worlds sample
listening_world = (start sample sample_outside sample_env Keys.start).1

starts : (start sample sample_outside sample_env Keys.start).0 ≡ ok sample_server
unfolding program start new_db_connection run_migrations new_redis_client required sync_api_key
    sync_against Hex.encode new_token_config parse_duration_or_default
starts = refl

start-accepts_example :
    Ends (is_valid_api_key sample "new key") listening_world (OnOk λ b _. b ≡ true)
    × Ends
        (is_valid_api_key sample "old key")
        listening_world
        (OnOk λ b _. (b ≡ false) ⊎ OneOf sample old_keys "new key" (hash_api_key sample "old key"))
start-accepts_example =
    start-accepts sample sample_outside sample_env "old key" Keys.start listening_world
      sample_server old_keys-IsLasting starts (λ j. refl)

-- One request comes, then the signal; the request is answered, and the process ends.
abbrev came : Process sample
came = accept 1 logout_request (launched listening_world)

abbrev signalled : Process sample
signalled = shut_down 2 came

abbrev replied_to : Process sample
replied_to = answer sample_server.api 3 [] logout_request [] signalled

abbrev cleaned : Process sample
cleaned =
    clean_up 6 redis_client [] (clean_up 5 database (redis_client ∷ []) (stopped 4 replied_to))

abbrev over : Process sample
over = exit ended 5000000008 (linger sample_server.graceful_timeout 7 cleaned)

to_the_end : Run sample_server.api sample_server.graceful_timeout signalled 6 over
unfolding accept answer shut_down stopped clean_up linger exit new_server_config
    parse_duration_or_default
to_the_end =
    next
      (next
        (next
          (next
            (next (next here (is_answered 3 [] logout_request [] (omega arith) tt refl))
              (is_drained 4 (omega arith) refl refl))
            (closes 5 database (redis_client ∷ []) (omega arith) refl))
          (closes 6 redis_client [] (omega arith) refl))
        (has_closed 7 (omega arith) refl))
      (wakes 5000000008 5000000007 (omega arith) refl (omega arith))

up_to_the_request :
    Run sample_server.api sample_server.graceful_timeout (launched listening_world) 1 came
unfolding accept
up_to_the_request = next here (arrives 1 logout_request (omega arith) refl)

process-Ordered_example : IsValid came.world.db × Ordered came.phase came
process-Ordered_example =
    process-Ordered sample sample_outside sample_env Keys.start sample_server before-IsValid starts
      up_to_the_request

over_phase : over.phase ≡ ended
unfolding exit
over_phase = refl

none_closed : came.closed ≡ []
unfolding accept
none_closed = refl

shutdown_answers_example :
    Perm (calls_of over.answers) (requests came) ⊎ (2 + shutdown_timeout ≤ over.clock)
shutdown_answers_example =
    shutdown_answers sample_server.api sample_server.graceful_timeout 2 came none_closed to_the_end
      over_phase
