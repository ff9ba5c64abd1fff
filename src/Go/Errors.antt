-- ===== src/Go/Errors.antt =====
-- Go's `error` values: the package-level variables of internal/service/token.go and
-- internal/storage/storage.go, `errors.New`, `fmt.Errorf` with `%w`, and echo's HTTPError.
use Prim.Native.String.{◌++◌}
use medods_dvortsov.Prelude.{ℕ, String, Bool, false, ◌||◌, Option, none, some, nat_eq}

-- The error variables that are compared by identity, those of the libraries (`no_rows` of
-- database/sql, `redis_nil` of go-redis) among them.
pub data Sentinel : Type 0 where
  token_expired token_invalid token_malformed token_revoked : Sentinel
  invalid_user_id invalid_signing_method : Sentinel
  session_not_found user_not_found : Sentinel
  no_rows redis_nil : Sentinel

-- `text` is `errors.New` at a return, `context` is `fmt.Errorf("…: %w", e)` and `joined` is
-- `fmt.Errorf("%w: %w", s, e)`; `foreign` is a library's or a service's own error, which is none
-- of the variables above.
pub data GoError : Type 0 where
  sentinel : Sentinel → GoError
  text : String → GoError
  context : String → GoError → GoError
  joined : Sentinel → GoError → GoError
  http : ℕ → String → GoError
  foreign : String → GoError

-- How a call ends: with a value and a nil error, with an error, or by a panic.
pub data Result {ℓ} (A : Type ℓ) : Type ℓ where
  ok : A → Result A
  err : GoError → Result A
  panicked : Result A

-- A value or its error, as a caller that tests `err` holds them.
pub data Caught {ℓ} (A : Type ℓ) : Type ℓ where
  returned : A → Caught A
  failed : GoError → Caught A

-- `if err != nil { return fmt.Errorf("m: %w", err) }`.
abbrev pub wrap_result {ℓ} : {A : Type ℓ} → String → Result A → Result A
wrap_result m (ok a) = ok a
wrap_result m (err e) = err (context m e)
wrap_result m panicked = panicked

abbrev sentinel_number : Sentinel → ℕ
sentinel_number token_expired = 0
sentinel_number token_invalid = 1
sentinel_number token_malformed = 2
sentinel_number token_revoked = 3
sentinel_number invalid_user_id = 4
sentinel_number invalid_signing_method = 5
sentinel_number session_not_found = 6
sentinel_number user_not_found = 7
sentinel_number no_rows = 8
sentinel_number redis_nil = 9

abbrev pub sentinel_eq : Sentinel → Sentinel → Bool
sentinel_eq s t = nat_eq (sentinel_number s) (sentinel_number t)

-- `errors.Is(e, s)`: the error or one that it wraps is the variable `s`.
unfoldable pub errors_is : GoError → Sentinel → Bool
errors_is (sentinel r) s = sentinel_eq r s
errors_is (context _ e) s = errors_is e s
errors_is (joined r e) s = sentinel_eq r s || errors_is e s
errors_is _ _ = false

-- `errors.As(e, &he)` for a `*echo.HTTPError`.
unfoldable pub errors_as_http : GoError → Option (ℕ × String)
errors_as_http (http c m) = some (c, m)
errors_as_http (context _ e) = errors_as_http e
errors_as_http (joined _ e) = errors_as_http e
errors_as_http _ = none

abbrev sentinel_message : Sentinel → String
sentinel_message token_expired = "token expired"
sentinel_message token_invalid = "token invalid"
sentinel_message token_malformed = "token is malformed"
sentinel_message token_revoked = "token revoked"
sentinel_message invalid_user_id = "invalid userID"
sentinel_message invalid_signing_method = "invalid signing method"
sentinel_message session_not_found = "session not found"
sentinel_message user_not_found = "user not found"
sentinel_message no_rows = "sql: no rows in result set"
sentinel_message redis_nil = "redis: nil"

-- `err.Error()`. The text of an HTTPError is used only as its message.
unfoldable pub error_message : GoError → String
error_message (sentinel s) = sentinel_message s
error_message (text m) = m
error_message (context m e) = m ++ ": " ++ error_message e
error_message (joined s e) = sentinel_message s ++ ": " ++ error_message e
error_message (http _ m) = m
error_message (foreign m) = m
