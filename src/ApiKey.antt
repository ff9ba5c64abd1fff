-- ===== src/ApiKey.antt =====
-- internal/service/apikey.go.
pub mod Check
pub mod Sync
pub mod Accepted
use medods_dvortsov.Prelude.{
  ℕ, ◌+◌, String, Bool, true, false, ◌&&◌, not, List, [], ◌∷◌, leb, ◌==◌, if◌then◌else◌,
}
use medods_dvortsov.Go.Errors.{Caught, returned, failed, text, context, redis_nil, errors_is}
use medods_dvortsov.Go.Hex
use medods_dvortsov.Platform.{Platform}
use medods_dvortsov.Platform.Redis.{SetCommand}
use medods_dvortsov.Program.{
  when◌then◌else◌, Action, pure, throw, lift, wrap, attempt, ◌>>=◌, time_now, redis_get, redis_exec,
}

abbrev pub current_api_key_redis_key : String
current_api_key_redis_key = "apikey:current"

abbrev pub old_api_key_redis_key : String
old_api_key_redis_key = "apikey:old"

abbrev pub api_key_rotation_time_redis_key : String
api_key_rotation_time_redis_key = "apikey:rotation_time"

-- 24 hours, in milliseconds.
abbrev pub default_api_key_redis_ttl : ℕ
default_api_key_redis_ttl = 86400000

abbrev pub set_command : String → String → ℕ → SetCommand
set_command key value expiration = record { key = key; value = value; expiration = expiration }

-- `len(a) == len(b) && subtle.ConstantTimeCompare([]byte(a), []byte(b)) == 1` on two texts: it is 1
-- exactly on equal bytes.
abbrev pub same_hash : String → String → Bool
same_hash a b = a == b

module _ (p : Platform) where
  abbrev pub hash_api_key : String → String
  hash_api_key key = Hex.encode (p.host.sum256 key)

  -- `env_key` is the variable AUTH_SERVICE_API_KEY.
  unfoldable pub set_initial_api_key : String → Action p Unit
  set_initial_api_key env_key =
      when env_key == ""
      then throw (text "AUTH_SERVICE_API_KEY environment variable not set")
      else do
        now ← time_now p
        wrap "init API key" (
            redis_exec p (
              set_command current_api_key_redis_key (hash_api_key env_key) 0
              ∷ set_command api_key_rotation_time_redis_key (p.host.format_rfc3339 now) 0
              ∷ []))

  -- The pipeline that makes the current key the old one.
  abbrev pub rotation_commands : String → String → String → List SetCommand
  rotation_commands current hashed stamp =
      set_command old_api_key_redis_key current default_api_key_redis_ttl
      ∷ set_command current_api_key_redis_key hashed 0
      ∷ set_command api_key_rotation_time_redis_key stamp 0
      ∷ []

  unfoldable pub sync_against : String → Caught String → Action p Unit
  sync_against env_key (failed e) =
      when errors_is e redis_nil
      then set_initial_api_key env_key
      else throw (context "failed to get current API key from Redis" e)
  sync_against env_key (returned current) =
      when same_hash (hash_api_key env_key) current then pure tt else do
        now ← time_now p
        wrap "failed to sync API key in Redis" (
            redis_exec p
              (rotation_commands current (hash_api_key env_key) (p.host.format_rfc3339 now)))

  unfoldable pub sync_api_key : String → Action p Unit
  sync_api_key env_key =
      when env_key == ""
      then throw (text "AUTH_SERVICE_API_KEY is empty during sync attempt")
      else do
        current ← attempt (redis_get p current_api_key_redis_key)
        sync_against env_key current

  -- A key that is not there reads as "".
  unfoldable pub value_or_empty : String → Caught String → Action p String
  value_or_empty m (returned v) = pure v
  value_or_empty m (failed e) = when errors_is e redis_nil then pure "" else throw (context m e)

  -- The old key counts for 24 hours from the rotation.
  unfoldable pub within_grace : Action p Bool
  within_grace = do
    stamp ←
        wrap "failed to get key rotation time from Redis"
          (redis_get p api_key_rotation_time_redis_key)
    rotation ← wrap "failed to parse key rotation time" (lift (p.host.parse_rfc3339 stamp))
    now ← time_now p
    pure (leb now (rotation + default_api_key_redis_ttl))

  unfoldable pub check_old : String → Action p Bool
  check_old hashed = do
    found ← attempt (redis_get p old_api_key_redis_key)
    old ← value_or_empty "failed to get old API key from Redis" found
    when not (old == "") && same_hash hashed old then within_grace else pure false

  unfoldable pub is_valid_api_key : String → Action p Bool
  is_valid_api_key key = when key == "" then pure false else do
    found ← attempt (redis_get p current_api_key_redis_key)
    current ← value_or_empty "failed to get current API key from Redis" found
    when same_hash (hash_api_key key) current then pure true else check_old (hash_api_key key)
