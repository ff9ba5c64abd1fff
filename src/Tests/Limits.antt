-- ===== src/Tests/Limits.antt =====
-- A Redis that runs the rate limiter's script, and the theorems on the limiter at concrete inputs.
use medods_dvortsov.Prelude.{
  ℕ, zero, suc, ◌^◌, ◌<◌, String, ◌≡◌, ◌≢◌, refl, ap, ◌∙◌, eq_iff, Option, none, some, [], ◌∷◌, ℤ,
  pos, negsuc, arith, map, true, false, ◌==◌, ==-false_of_ne, if◌then◌else◌,
}
use medods_dvortsov.Go.Errors.{Result, ok, err, foreign}
use medods_dvortsov.Go.Strconv.{format_int, parse_int}
use medods_dvortsov.Go.Strconv.RoundTrip.{parse_int-format_int}
use medods_dvortsov.Models.{Time}
use medods_dvortsov.Platform.Redis.{Entry, live}
use medods_dvortsov.Platform.Scripts.{RedisScripts, IsExpire, entry_for}
use medods_dvortsov.Program.{active, Worlds}
use medods_dvortsov.Limiter.{RateLimiterConfig, admitted, rate_limiter, count_key}
use medods_dvortsov.Limiter.Window.{window_run, window_step, admitted_of}
use medods_dvortsov.Limiter.Refinement.{answer_of, script_run, script_run-window_run}
use medods_dvortsov.Limiter.Limits.{goes_on, script_run_limit, rate_limiter_without_block}
use medods_dvortsov.Tests.Sample.{sample, sample_redis, db_with, world_with, no_keys}

abbrev Keys : Type 0
Keys = String → Option Entry

abbrev write : Keys → String → Entry → Keys
write s k e j = if k == j then some e else s j

write_same : (s : Keys) (k : String) (e : Entry) → write s k e k ≡ some e
write_same s k e = rw ((eq_iff k k).1 refl) refl

write_ne : (s : Keys) (k : String) (e : Entry) (j : String) → k ≢ j → write s k e j ≡ s j
write_ne s k e j h = rw (==-false_of_ne k j h) refl

abbrev deadline_of : Option Entry → Option Time
deadline_of none = none
deadline_of (some e) = e.deadline

abbrev incremented : Keys → String → Option Time → Option ℤ → Result ℤ × Keys
incremented s k d (some (pos n)) =
    (ok (pos (suc n)), write s k (record { value = format_int (pos (suc n)); deadline = d }))
incremented s k d (some (negsuc n)) = (err (foreign "not a count"), s)
incremented s k d none = (err (foreign "not an integer"), s)

abbrev incr_live : Keys → String → Option String → Result ℤ × Keys
incr_live s k none =
    (ok (pos 1), write s k (record { value = format_int (pos 1); deadline = none }))
incr_live s k (some v) = incremented s k (deadline_of (s k)) (parse_int v)

abbrev expire_live : Keys → Time → String → ℤ → Option String → Result (Unit {0}) × Keys
expire_live s now k (pos n) (some v) = (ok tt, write s k (entry_for now v n))
expire_live s now k d v = (ok tt, s)

abbrev setex : Keys → Time → String → ℤ → String → Result (Unit {0}) × Keys
setex s now k (pos zero) v = (err (foreign "invalid expire time"), s)
setex s now k (pos (suc n)) v = (ok tt, write s k (entry_for now v (suc n)))
setex s now k (negsuc n) v = (err (foreign "invalid expire time"), s)

pub read_number : (n : ℕ) → n < 2 ^ 63 → parse_int (format_int (pos n)) ≡ some (pos n)
read_number n h = parse_int-format_int (pos n) (omega arith)

pub incr_absent :
    (s : Keys) (now : Time) (k : String)
    → live now (s k) ≡ none
    → ((incr_live s k (live now (s k))).0 ≡ ok (pos 1))
      × ((incr_live s k (live now (s k))).1 k
          ≡ some (record { value = format_int (pos 1); deadline = none }))
incr_absent s now k h = rw h (refl, write_same s k _)

pub incr_present :
    (s : Keys) (now : Time) (k : String) (e : Entry) (n : ℕ)
    → s k ≡ some e
    → live now (s k) ≡ some (format_int (pos n))
    → suc n < 2 ^ 63
    → ((incr_live s k (live now (s k))).0 ≡ ok (pos (suc n)))
      × ((incr_live s k (live now (s k))).1 k
          ≡ some (record e { value = format_int (pos (suc n)) }))
incr_present s now k e n h l fits =
    rw (l, read_number n (omega arith))
      (
        refl,
        write_same s k _
            ∙ ap (λ x. some (record { value = format_int (pos (suc n)); deadline = deadline_of x }))
                h,
      )

incremented_ne :
    (s : Keys) (k : String) (d : Option Time) (n : Option ℤ) (j : String)
    → k ≢ j
    → (incremented s k d n).1 j ≡ s j
incremented_ne s k d none j h = refl
incremented_ne s k d (some (pos n)) j h = write_ne s k _ j h
incremented_ne s k d (some (negsuc n)) j h = refl

pub incr_ne :
    (s : Keys) (k : String) (v : Option String) (j : String) → k ≢ j → (incr_live s k v).1 j ≡ s j
incr_ne s k none j h = write_ne s k _ j h
incr_ne s k (some v) j h = incremented_ne s k (deadline_of (s k)) (parse_int v) j h

pub expire_present :
    (s : Keys) (now : Time) (k v : String) (n : ℕ)
    → live now (s k) ≡ some v
    → ((expire_live s now k (pos n) (live now (s k))).0 ≡ ok tt)
      × ((expire_live s now k (pos n) (live now (s k))).1 k ≡ some (entry_for now v n))
expire_present s now k v n h = rw h (refl, write_same s k _)

pub expire_ne :
    (s : Keys) (now : Time) (k : String) (d : ℤ) (v : Option String) (j : String)
    → k ≢ j
    → (expire_live s now k d v).1 j ≡ s j
expire_ne s now k (pos n) (some v) j h = write_ne s k _ j h
expire_ne s now k (pos n) none j h = refl
expire_ne s now k (negsuc n) v j h = refl

pub setex_valid :
    (s : Keys) (now : Time) (k v : String) (n : ℕ)
    → IsExpire n
    → ((setex s now k (pos n) v).0 ≡ ok tt)
      × ((setex s now k (pos n) v).1 k ≡ some (entry_for now v n))
setex_valid s now k v zero h = absurd (omega arith)
setex_valid s now k v (suc n) h = (refl, write_same s k _)

pub setex_ne :
    (s : Keys) (now : Time) (k : String) (d : ℤ) (v j : String)
    → k ≢ j
    → (setex s now k d v).1 j ≡ s j
setex_ne s now k (pos zero) v j h = refl
setex_ne s now k (pos (suc n)) v j h = write_ne s k _ j h
setex_ne s now k (negsuc n) v j h = refl

abbrev pub sample_scripts : RedisScripts sample_redis
sample_scripts = record {
  get = λ s now k. live now (s k);
  incr = λ s now k. incr_live s k (live now (s k));
  expire = λ s now k d. expire_live s now k d (live now (s k));
  setex = setex;
  tonumber = parse_int;
  get-live = λ s now k. refl;
  tonumber-format_int = λ n h. read_number n (omega arith);
  incr_absent = incr_absent;
  incr_present = incr_present;
  incr_ne = λ s now k j h. incr_ne s k (live now (s k)) j h;
  expire_present = λ s now k v n h x. expire_present s now k v n h;
  expire_ne = λ s now k d j h. expire_ne s now k d (live now (s k)) j h;
  setex_valid = setex_valid;
  setex_zero = λ s now k v. ("invalid expire time", refl);
  setex_ne = setex_ne;
}

-- Two requests in a window of ten seconds, and a block time of a minute.
abbrev pub two_a_window : RateLimiterConfig
two_a_window = record { limit = pos 2; interval = pos 10000000000; block_time = pos 60000000000 }

abbrev unblocked : RateLimiterConfig
unblocked = record { limit = pos 2; interval = pos 10000000000; block_time = pos 0 }

script_run-window_run_example :
    script_run sample sample_scripts 2 10 60 "key" (0 ∷ 1 ∷ 2 ∷ 10000 ∷ []) no_keys
    ≡ map answer_of (window_run 2 10 (0 ∷ 1 ∷ 2 ∷ 10000 ∷ []) none)
script_run-window_run_example =
    script_run-window_run sample sample_scripts 2 10 60 "key" (omega arith)
      (omega arith, omega arith) (omega arith, omega arith) (0 ∷ 1 ∷ 2 ∷ 10000 ∷ []) no_keys none
      refl

-- Two of the three, and one in the next window.
window_run_tests : window_run 2 10 (0 ∷ 1 ∷ 2 ∷ 10000 ∷ []) none ≡ true ∷ true ∷ false ∷ true ∷ []
unfolding window_run window_step
window_run_tests = refl

script_run_limit_example :
    admitted_of
      (map goes_on (script_run sample sample_scripts 2 10 60 "key" (0 ∷ 1 ∷ 2 ∷ []) no_keys))
    ≡ 2
script_run_limit_example =
    script_run_limit sample sample_scripts 2 10 60 "key" 0 (1 ∷ 2 ∷ []) no_keys (omega arith)
      (omega arith) (omega arith, omega arith) (omega arith, omega arith) refl
      (omega arith, (omega arith, tt))

abbrev pub over_limit : Worlds sample
over_limit =
    world_with (db_with active)
      (write no_keys (count_key "10.0.0.1") (entry_for 0 (format_int (pos 2)) 10))

rate_limiter_without_block_example :
    (rate_limiter sample sample_scripts unblocked "10.0.0.1" over_limit).0 ≡ ok admitted
rate_limiter_without_block_example =
    rate_limiter_without_block sample sample_scripts unblocked "10.0.0.1" over_limit 2 refl
      (omega arith) refl refl refl
