-- ===== src/Config.antt =====
-- internal/util/config.go, and the settings of internal/util/db.go. The environment is a function from
-- names to texts, "" for a name that is not set. Durations are nanoseconds; `scaled` is the float64
-- arithmetic of a fraction. The log lines of a fallback are left out.
pub mod Durations
use medods_dvortsov.Prelude.{ℕ, ◌*◌, String, Option, none, some, ℤ, pos, ◌==◌, if◌then◌else◌}
use medods_dvortsov.Go.Strconv.{parse_int}
use medods_dvortsov.Go.Duration.{parse_duration}
use medods_dvortsov.Limiter.{RateLimiterConfig}

abbrev pub Environment : Type 0
Environment = String → String

abbrev seconds : ℕ → ℤ
seconds n = pos (n * 1000000000)

pub record ServerConfig : Type 0 where
  pub server_addr : String
  pub write_timeout : ℤ
  pub read_timeout : ℤ
  pub idle_timeout : ℤ
  pub graceful_timeout : ℤ

-- The secret is the bytes of the text.
pub record TokenConfig : Type 0 where
  pub jwt_secret_key : String
  pub access_ttl : ℤ
  pub refresh_ttl : ℤ

abbrev pub or_default {ℓ} : {A : Type ℓ} → Option A → A → A
or_default none def = def
or_default (some a) def = a

-- `strconv.Atoi` on a text that is set.
abbrev pub limit_of : String → ℤ
limit_of v = if v == "" then pos 100 else or_default (parse_int v) (pos 100)

abbrev pub get_webhook_url : Environment → String
get_webhook_url env = env "WEBHOOK_URL"

-- `DBConfig`.
pub record DbConfig : Type 0 where
  pub dsn : String

pub record RedisConfig : Type 0 where
  pub addr : String

-- `none` is the end of the process by `log.Fatal`.
abbrev pub new_db_config : Environment → Option DbConfig
new_db_config env =
    if env "DATABASE_URL" == "" then none else some (record { dsn = env "DATABASE_URL" })

abbrev pub new_redis_config : Environment → Option RedisConfig
new_redis_config env =
    if env "REDIS_ADDR" == "" then none else some (record { addr = env "REDIS_ADDR" })

module _ (scaled : ℕ → ℕ → ℕ → ℕ) (env : Environment) where
  unfoldable pub parse_duration_or_default : String → ℤ → ℤ
  parse_duration_or_default name def =
      let v = env name in if v == "" then def else or_default (parse_duration scaled v) def

  unfoldable pub new_server_config : ServerConfig
  new_server_config = record {
    server_addr = if env "SERVER_ADDRESS" == "" then "localhost:8080" else env "SERVER_ADDRESS";
    write_timeout = parse_duration_or_default "WRITE_TIMEOUT" (seconds 10);
    read_timeout = parse_duration_or_default "READ_TIMEOUT" (seconds 10);
    idle_timeout = parse_duration_or_default "IDLE_TIMEOUT" (seconds 30);
    graceful_timeout = parse_duration_or_default "GRACEFUL_TIMEOUT" (seconds 5);
  }

  -- `none` is the end of the process here, too.
  unfoldable pub new_token_config : Option TokenConfig
  new_token_config =
      if env "JWT_SECRET" == ""
      then none
      else some (record {
        jwt_secret_key = env "JWT_SECRET";
        access_ttl = parse_duration_or_default "ACCESS_TOKEN_TTL" (seconds 900);
        refresh_ttl = parse_duration_or_default "REFRESH_TOKEN_TTL" (seconds 86400);
      })

  unfoldable pub new_rate_limiter_config : RateLimiterConfig
  new_rate_limiter_config = record {
    limit = limit_of (env "RATE_LIMIT_LIMIT");
    interval = parse_duration_or_default "RATE_LIMIT_INTERVAL" (seconds 60);
    block_time = parse_duration_or_default "RATE_LIMIT_BLOCK_TIME" (seconds 300);
  }
