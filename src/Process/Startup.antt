-- ===== src/Process/Startup.antt =====
-- The start of the process: main of cmd/main.go, NewDBConnection and NewRedisClient of
-- internal/util/db.go, RunMigrations of internal/migrations/migrations.go, NewAPI and the first lines
-- of Run of internal/api/api.go. `log.Fatal` ends the process: it is an error here, which nothing
-- catches. Log lines are left out.
use medods_dvortsov.Prelude.{ℕ, String, code, ◌≡◌, Option, none, some, List, [], ◌∷◌, ℤ}
use medods_dvortsov.Go.Errors.{text, Result, Caught}
use medods_dvortsov.Platform.{Platform}
use medods_dvortsov.Platform.Scripts.{RedisScripts}
use medods_dvortsov.Program.{Action, Worlds, pure, throw, lift, wrap, ◌>>=◌, ◌>>◌}
use medods_dvortsov.Token.{TokenService}
use medods_dvortsov.ApiKey.{sync_api_key}
use medods_dvortsov.Limiter.{RateLimiterConfig}
use medods_dvortsov.Config.{
  Environment, ServerConfig, TokenConfig, new_db_config, new_redis_config, new_server_config,
  new_token_config, new_rate_limiter_config, get_webhook_url,
}
use medods_dvortsov.Server.{Api, EchoRouter, RequestValidator}
use medods_dvortsov.Process.Shutdown.{Resource, shutdown_funcs}

-- The calls that leave the program at the start, and what the server is given by libraries.
-- `sql.Open` looks at the data source name and does not connect. `goose.Up` applies the migrations
-- that the database lacks: one without the tables stands for one whose tables are empty.
pub record Outside (p : Platform) : Type 0 where
  pub sql_open : String → Result (Unit {0})
  pub ping : String → Action p Unit
  pub goose_up : String → Action p Unit
  pub get_swagger : Result (Unit {0})
  pub ping_keeps :
      (dsn : String) (w : Worlds p) → ((ping dsn w).1.db ≡ w.db) × ((ping dsn w).1.store ≡ w.store)
  pub goose_keeps :
      (dir : String) (w : Worlds p)
      → ((goose_up dir w).1.db ≡ w.db) × ((goose_up dir w).1.store ≡ w.store)
  -- float64 arithmetic, in `time.ParseDuration`.
  pub scaled : ℕ → ℕ → ℕ → ℕ
  pub scripts : RedisScripts p.redis
  pub router : EchoRouter
  pub validator : RequestValidator p
  pub parse_uuid : String → Option String
  pub bind_guid : Option String → Caught String

-- `http.Server`, as far as NewAPI sets it, and `API`.
pub record HttpServer : Type 0 where
  pub addr : String
  pub write_timeout : ℤ
  pub read_timeout : ℤ
  pub idle_timeout : ℤ

pub record ApiServer (p : Platform) : Type 0 where
  pub server : HttpServer
  pub api : Api p
  pub graceful_timeout : ℤ
  pub cleanup_funcs : List Resource

-- `[]byte(s)`: a character of a text is a byte.
abbrev pub bytes : String → List ℕ
bytes String.[] = []
bytes (String.◌∷◌ c s) = code c ∷ bytes s

abbrev pub new_token_service : TokenConfig → TokenService
new_token_service cfg = record {
  jwt_secret_key = bytes cfg.jwt_secret_key;
  access_ttl = cfg.access_ttl;
  refresh_ttl = cfg.refresh_ttl;
}

module _ (p : Platform) (outside : Outside p) where
  -- A setting, or `log.Fatal`.
  unfoldable pub required : {A : Type 0} → String → Option A → Action p A
  required message none = throw (text message)
  required message (some a) = pure a

  unfoldable pub new_db_connection : Environment → Action p Unit
  new_db_connection env = do
    config ← required "DATABASE_URL is not set" (new_db_config env)
    wrap "sql open" (lift (outside.sql_open config.dsn))
    wrap "db ping context" (outside.ping config.dsn)

  unfoldable pub run_migrations : String → Action p Unit
  run_migrations dir = wrap "migrations" (outside.goose_up dir)

  -- `redis.NewClient` makes no call.
  unfoldable pub new_redis_client : Environment → Action p Unit
  new_redis_client env = do
    config ← required "REDIS_ADDR is not set" (new_redis_config env)
    pure tt

  abbrev pub new_api : TokenService → String → RateLimiterConfig → ServerConfig → ApiServer p
  new_api ts webhook_url limiter sc = record {
    server = record {
      addr = sc.server_addr;
      write_timeout = sc.write_timeout;
      read_timeout = sc.read_timeout;
      idle_timeout = sc.idle_timeout;
    };
    api = record {
      ts = ts;
      webhook_url = webhook_url;
      scripts = outside.scripts;
      limiter = limiter;
      router = outside.router;
      validator = outside.validator;
      parse_uuid = outside.parse_uuid;
      bind_guid = outside.bind_guid;
    };
    graceful_timeout = sc.graceful_timeout;
    cleanup_funcs = shutdown_funcs;
  }

  -- Up to ListenGracefulShutdown.
  unfoldable pub start : Environment → Action p (ApiServer p)
  start env = do
    new_db_connection env
    run_migrations "./internal/migrations"
    new_redis_client env
    sync_api_key p (env "AUTH_SERVICE_API_KEY")
    tokens ← required "JWT_SECRET is not set" (new_token_config outside.scaled env)
    lift outside.get_swagger
    pure (
        new_api (new_token_service tokens) (get_webhook_url env)
          (new_rate_limiter_config outside.scaled env) (new_server_config outside.scaled env))
