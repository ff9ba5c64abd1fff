-- ===== src/Limiter/Limits.antt =====
-- What the limiter lets through: the limit in a window, and what the block time does not do.
use Prim.Native.String.{◌++◌}
use medods_dvortsov.Prelude.{
  ℕ, suc, ◌+◌, ◌*◌, ◌^◌, ◌<◌, String, ◌≡◌, refl, ap, ◌∙◌, Bool, true, false, not, none, some, List,
  [], ◌∷◌, map, All, length, ℤ, pos, int_eq, arith,
}
use medods_dvortsov.Go.Errors.{http, Result, ok, err, panicked}
use medods_dvortsov.Go.Strconv.{format_int}
use medods_dvortsov.Models.{Time}
use medods_dvortsov.Platform.{Platform}
use medods_dvortsov.Platform.Machine.{answered}
use medods_dvortsov.Platform.Redis.{live}
use medods_dvortsov.Platform.Scripts.{RedisScripts, IsExpire}
use medods_dvortsov.Program.{program, Worlds}
use medods_dvortsov.Limiter.{
  RateLimiterConfig, admitted, rejected, whole_seconds, int_leb, block, limiter_script, run_script,
  count_key, admission, rate_limiter,
}
use medods_dvortsov.Limiter.Window.{window_step, window_run, window_run_within, admitted_of, min}
use medods_dvortsov.Limiter.Refinement.{answer_of, script_run, script_run-window_run}

-- Whether the middleware goes on with the request after the script's answer.
abbrev pub goes_on : Result ℤ → Bool
goes_on (ok n) = not (int_eq n (pos 0))
goes_on (err e) = true
goes_on panicked = false

goes_on-answer_of : (bs : List Bool) → admitted_of (map goes_on (map answer_of bs)) ≡ admitted_of bs
goes_on-answer_of [] = refl
goes_on-answer_of (true ∷ bs) = ground (arith, goes_on-answer_of bs)
goes_on-answer_of (false ∷ bs) = goes_on-answer_of bs

module _ (p : Platform) (scripts : RedisScripts p.redis) where
  -- Of the requests of one address from a first one on, whose count is not yet in Redis, at times
  -- before the end of the window that it opens: as many go on as there are, up to the limit, and no
  -- more. The limit is positive and below 2 ^ 53, the window and the block time are whole seconds from
  -- 1 to below 2 ^ 40, and nothing else writes the counter's key.
  pub script_run_limit :
      (limit seconds blocked : ℕ) (key : String) (first : Time) (times : List Time)
      (s : p.redis.Store)
      → 0 < limit
      → limit < 2 ^ 53
      → IsExpire seconds
      → IsExpire blocked
      → p.redis.entry s key ≡ none
      → All (λ t. t < first + seconds * 1000) times
      → admitted_of (map goes_on (script_run p scripts limit seconds blocked key (first ∷ times) s))
        ≡ min (suc (length times)) limit
  unfolding window_run window_step
  script_run_limit limit seconds blocked key first times s room fits window blocks absent inside =
      ap (λ (rs : List (Result ℤ)). admitted_of (map goes_on rs))
        (script_run-window_run p scripts limit seconds blocked key fits window blocks
          (first ∷ times) s none absent)
      ∙ (goes_on-answer_of (window_run limit seconds (first ∷ times) none)
          ∙ ground
              (arith, window_run_within limit seconds 1 (first + seconds * 1000) times room inside))

  -- With a block time below a second, a request over the limit goes on: where no block key is there,
  -- the script fails on SETEX, and the middleware admits the request as it does on every error.
  pub rate_limiter_without_block :
      (config : RateLimiterConfig) (ip : String) (w : Worlds p) (n : ℕ)
      → whole_seconds config.block_time ≡ pos 0
      → n < 2 ^ 53
      → live (p.host.clock w.events) (p.redis.entry w.store (count_key ip))
        ≡ some (format_int (pos n))
      → int_leb config.limit (pos n) ≡ true
      → live (p.host.clock w.events) (p.redis.entry w.store (count_key ip ++ ":block")) ≡ none
      → (rate_limiter p scripts config ip w).0 ≡ ok admitted
  unfolding program rate_limiter run_script limiter_script block admission
  rate_limiter_without_block config ip w n unblocked fits counted over absent = ground (
    arith,
    scripts.get-live w.store (p.host.clock w.events) (count_key ip),
    scripts.get-live w.store (p.host.clock w.events) (count_key ip ++ ":block"),
    scripts.tonumber-format_int n fits,
    scripts.setex_zero w.store (p.host.clock w.events) (count_key ip ++ ":block") "1",
  )

  limiter_script_over_limit :
      (key : String) (limit interval : ℤ) (n blocked : ℕ) (now : Time) (s : p.redis.Store)
      → live now (p.redis.entry s key) ≡ some (format_int (pos n))
      → n < 2 ^ 53
      → int_leb limit (pos n) ≡ true
      → IsExpire blocked
      → (limiter_script p scripts key limit interval (pos blocked) now s).0 ≡ ok (pos 0)
  unfolding limiter_script block
  limiter_script_over_limit key limit interval n blocked now s counted fits over range = ground (
    arith,
    scripts.get-live s now key,
    scripts.tonumber-format_int n fits,
    scripts.setex_valid s now (key ++ ":block") "1" blocked range,
  )

  -- A request over the limit is rejected, where a block time of a second or more is set.
  pub rate_limiter_over_limit :
      (config : RateLimiterConfig) (ip : String) (w : Worlds p) (n blocked : ℕ)
      → p.host.reply w.events ≡ answered
      → live (p.host.clock w.events) (p.redis.entry w.store (count_key ip))
        ≡ some (format_int (pos n))
      → n < 2 ^ 53
      → int_leb config.limit (pos n) ≡ true
      → whole_seconds config.block_time ≡ pos blocked
      → IsExpire blocked
      → (rate_limiter p scripts config ip w).0
        ≡ ok (rejected (format_int (pos blocked)) (http 429 "Too many requests"))
  unfolding program rate_limiter run_script admission
  rate_limiter_over_limit config ip w n blocked answers counted fits over seconds range =
      let over_answer : (limiter_script p scripts (count_key ip) config.limit
            (whole_seconds config.interval) (whole_seconds config.block_time)
            (p.host.clock w.events) w.store).0
          ≡ ok (pos 0) =
        rw (seconds) (
          limiter_script_over_limit (count_key ip) config.limit (whole_seconds config.interval) n
            blocked (p.host.clock w.events) w.store counted fits over range) in
      ground arith
