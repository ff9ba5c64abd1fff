-- ===== src/Denylist.antt =====
-- internal/storage/redis/token.go: revoked access tokens, each a key of its own.
use medods_dvortsov.Prelude.{String, Bool, false, ℤ, ◌==◌, if◌then◌else◌}
use medods_dvortsov.Go.Errors.{Caught, returned, failed, context, redis_nil, errors_is}
use medods_dvortsov.Platform.{Platform}
use medods_dvortsov.Program.{
  when◌then◌else◌, Action, pure, throw, wrap, attempt, ◌>>=◌, redis_get, redis_set,
}

abbrev pub invalidated : String
invalidated = "invalidated"

module _ (p : Platform) where
  unfoldable pub invalidate_token : String → ℤ → Action p Unit
  invalidate_token token expiration = wrap "redis set" (redis_set p token invalidated expiration)

  unfoldable pub read_mark : Caught String → Action p Bool
  read_mark (returned value) = pure (value == invalidated)
  read_mark (failed e) =
      when errors_is e redis_nil then pure false else throw (context "redis get result" e)

  unfoldable pub is_token_invalidated : String → Action p Bool
  is_token_invalidated token = do result ← attempt (redis_get p token); read_mark result
