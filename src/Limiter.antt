-- ===== src/Limiter.antt =====
-- RateLimiter of internal/api/middleware.go: the Lua script, and the middleware around it.
pub mod Window
pub mod Refinement
pub mod Limits
use Prim.Native.String.{◌++◌}
use medods_dvortsov.Prelude.{
  ℕ, zero, suc, ◌/◌, ◌^◌, String, Bool, true, false, not, Option, none, some, ℤ, pos, negsuc, leb,
  int_eq, if◌then◌else◌,
}
use medods_dvortsov.Go.Errors.{
  GoError, Result, ok, err, panicked, http, foreign, Caught, returned, failed,
}
use medods_dvortsov.Go.Strconv.{format_int}
use medods_dvortsov.Models.{Time}
use medods_dvortsov.Platform.{Platform}
use medods_dvortsov.Platform.Machine.{answered, refused, lost}
use medods_dvortsov.Platform.Scripts.{RedisScripts}
use medods_dvortsov.Program.{when◌then◌else◌, Action, Worlds, pure, attempt, ◌>>=◌}

-- `util.RateLimiterConfig`; the durations are nanoseconds.
pub record RateLimiterConfig : Type 0 where
  pub limit : ℤ
  pub interval : ℤ
  pub block_time : ℤ

abbrev neg : ℕ → ℤ
neg zero = pos 0
neg (suc n) = negsuc n

-- `int(d.Seconds())`, exact as long as a float64 holds the nanoseconds.
abbrev pub whole_seconds : ℤ → ℤ
whole_seconds (pos n) = pos (n / 1000000000)
whole_seconds (negsuc n) = neg (suc n / 1000000000)

-- a ≤ b.
abbrev pub int_leb : ℤ → ℤ → Bool
int_leb (pos a) (pos b) = leb a b
int_leb (pos a) (negsuc b) = false
int_leb (negsuc a) (pos b) = true
int_leb (negsuc a) (negsuc b) = leb b a

abbrev number_or_zero : Option ℤ → ℤ
number_or_zero none = pos 0
number_or_zero (some n) = n

module _ (p : Platform) (scripts : RedisScripts p.redis) where
  -- `current and tonumber(current) or 0`.
  abbrev pub current_count : Option String → ℤ
  current_count none = pos 0
  current_count (some v) = number_or_zero (scripts.tonumber v)

  -- The end of the script over the limit.
  unfoldable pub block : String → ℤ → Time → p.redis.Store → Result ℤ × p.redis.Store
  block key block_time now s = elim (scripts.get s now (key ++ ":block")) [
    | some _ ↦ (ok (pos 0), s)
    | none ↦
        let (r, s') = scripts.setex s now (key ++ ":block") block_time "1" in
        elim r [ ok _ ↦ (ok (pos 0), s') | err e ↦ (err e, s') | panicked ↦ (panicked, s') ]
  ]

  unfoldable pub set_window : String → ℤ → Time → p.redis.Store → Result ℤ × p.redis.Store
  set_window key interval now s =
      let (r, s') = scripts.expire s now key interval in
      elim r [ ok _ ↦ (ok (pos 1), s') | err e ↦ (err e, s') | panicked ↦ (panicked, s') ]

  -- The end of the script below the limit.
  unfoldable pub count : String → ℤ → ℤ → Time → p.redis.Store → Result ℤ × p.redis.Store
  count key interval current now s =
      let (r, s') = scripts.incr s now key in
      elim r [
        | ok _ ↦ if int_eq current (pos 0) then set_window key interval now s' else (ok (pos 1), s')
        | err e ↦ (err e, s')
        | panicked ↦ (panicked, s')
      ]

  -- The script, at its key and its arguments: 1 admits the request, and 0 does not.
  unfoldable pub limiter_script :
      String → ℤ → ℤ → ℤ → Time → p.redis.Store → Result ℤ × p.redis.Store
  limiter_script key limit interval block_time now s =
      let current = current_count (scripts.get s now key) in
      if int_leb limit current then block key block_time now s else count key interval current now s

  -- `script.Run`: the script at the time of the event, unless the call fails before or after it.
  unfoldable pub run_script : (Time → p.redis.Store → Result ℤ × p.redis.Store) → Action p ℤ
  run_script script w = elim (p.host.reply w.events) [
    | answered ↦
        let (r, s) = script (p.host.clock w.events) w.store in
        (r, record w { events = suc w.events; store = s })
    | refused m ↦ (err (foreign m), record w { events = suc w.events })
    | lost m ↦ (
      err (foreign m),
      record w { events = suc w.events; store = (script (p.host.clock w.events) w.store).1 },
    )
  ]

abbrev pub count_key : String → String
count_key ip = "rate_limit:" ++ ip

-- What the middleware does with a request: on to the next handler, or an answer with the header
-- Retry-After and the error.
pub data Admission : Type 0 where
  admitted : Admission
  rejected : String → GoError → Admission

module _ (p : Platform) (scripts : RedisScripts p.redis) (config : RateLimiterConfig) where
  unfoldable pub admission : Caught ℤ → Admission
  admission (failed e) = admitted
  admission (returned n) =
      if int_eq n (pos 0)
      then rejected (format_int (whole_seconds config.block_time)) (http 429 "Too many requests")
      else admitted

  unfoldable pub rate_limiter : String → Action p Admission
  rate_limiter ip = do
    result ← attempt (
        run_script p scripts (
          limiter_script p scripts (count_key ip) config.limit (whole_seconds config.interval)
            (whole_seconds config.block_time)))
    pure (admission result)
