-- ===== src/Process/Progress.antt =====
-- When the start comes to its end.
use medods_dvortsov.Prelude.{◌≡◌, ◌≢◌, some}
use medods_dvortsov.Go.Errors.{ok}
use medods_dvortsov.Platform.{Platform}
use medods_dvortsov.Program.{Worlds}
use medods_dvortsov.ApiKey.{sync_api_key}
use medods_dvortsov.Config.{Environment, TokenConfig, new_token_config}
use medods_dvortsov.Process.Startup.{Outside, ApiServer}
use medods_dvortsov.Process.Started.{configured}

module _ (p : Platform) (outside : Outside p) where
  -- The world before SyncAPIKey.
  abbrev pub migrated : Environment → Worlds p → Worlds p
  migrated env w =
      (outside.goose_up "./internal/migrations" (outside.ping (env "DATABASE_URL") w).1).1

  -- The settings without a default are there, the database is reached and migrated, SyncAPIKey
  -- succeeds in the world that this leaves, the specification loads, and the server is that of the
  -- settings.
  pub record Starts (env : Environment) (w : Worlds p) (server : ApiServer p) : Type 0 where
    pub tokens : TokenConfig
    pub dsn : env "DATABASE_URL" ≢ ""
    pub addr : env "REDIS_ADDR" ≢ ""
    pub secret : new_token_config outside.scaled env ≡ some tokens
    pub opened : outside.sql_open (env "DATABASE_URL") ≡ ok tt
    pub pinged : (outside.ping (env "DATABASE_URL") w).0 ≡ ok tt
    pub migrates :
        (outside.goose_up "./internal/migrations" (outside.ping (env "DATABASE_URL") w).1).0 ≡ ok tt
    pub syncs : (sync_api_key p (env "AUTH_SERVICE_API_KEY") (migrated env w)).0 ≡ ok tt
    pub loads : outside.get_swagger ≡ ok tt
    pub put_together : server ≡ configured p outside env tokens
