-- ===== src/Platform/Scripts.antt =====
-- The commands of Redis that a Lua script calls. A script runs at one time, and nothing comes between
-- its commands. A number of seconds is a command's argument as the script gives it.
use medods_dvortsov.Prelude.{
  ℕ, suc, ◌+◌, ◌*◌, ◌^◌, ◌<◌, String, ◌≡◌, ◌≢◌, Option, none, some, ℤ, pos,
}
use medods_dvortsov.Go.Errors.{Result, ok, err, foreign}
use medods_dvortsov.Go.Strconv.{format_int}
use medods_dvortsov.Models.{Time}
use medods_dvortsov.Platform.Redis.{Entry, RedisClient, live}

-- Seconds that EXPIRE and SETEX take: positive, and not out of the range of a deadline.
abbrev pub IsExpire : ℕ → Type 0
IsExpire n = (0 < n) × (n < 2 ^ 40)

abbrev pub entry_for : Time → String → ℕ → Entry
entry_for now v seconds = record { value = v; deadline = some (now + seconds * 1000) }

pub record RedisScripts (r : RedisClient) : Type 0 where
  pub get : r.Store → Time → String → Option String
  pub incr : r.Store → Time → String → Result ℤ × r.Store
  pub expire : r.Store → Time → String → ℤ → Result (Unit {0}) × r.Store
  pub setex : r.Store → Time → String → ℤ → String → Result (Unit {0}) × r.Store
  -- Lua's `tonumber`, on the texts that stand for whole numbers.
  pub tonumber : String → Option ℤ
  pub get-live : (s : r.Store) (now : Time) (k : String) → get s now k ≡ live now (r.entry s k)
  pub tonumber-format_int : (n : ℕ) → n < 2 ^ 53 → tonumber (format_int (pos n)) ≡ some (pos n)
  -- INCR on a missing key starts it at 1 with no deadline, and keeps the deadline of another.
  pub incr_absent :
      (s : r.Store) (now : Time) (k : String)
      → live now (r.entry s k) ≡ none
      → ((incr s now k).0 ≡ ok (pos 1))
        × (r.entry (incr s now k).1 k
            ≡ some (record { value = format_int (pos 1); deadline = none }))
  pub incr_present :
      (s : r.Store) (now : Time) (k : String) (e : Entry) (n : ℕ)
      → r.entry s k ≡ some e
      → live now (r.entry s k) ≡ some (format_int (pos n))
      → suc n < 2 ^ 63
      → ((incr s now k).0 ≡ ok (pos (suc n)))
        × (r.entry (incr s now k).1 k ≡ some (record e { value = format_int (pos (suc n)) }))
  pub incr_ne :
      (s : r.Store) (now : Time) (k j : String) → k ≢ j → r.entry (incr s now k).1 j ≡ r.entry s j
  -- EXPIRE gives a key that is there a deadline.
  pub expire_present :
      (s : r.Store) (now : Time) (k v : String) (seconds : ℕ)
      → live now (r.entry s k) ≡ some v
      → IsExpire seconds
      → ((expire s now k (pos seconds)).0 ≡ ok tt)
        × (r.entry (expire s now k (pos seconds)).1 k ≡ some (entry_for now v seconds))
  pub expire_ne :
      (s : r.Store) (now : Time) (k : String) (seconds : ℤ) (j : String)
      → k ≢ j
      → r.entry (expire s now k seconds).1 j ≡ r.entry s j
  pub setex_valid :
      (s : r.Store) (now : Time) (k v : String) (seconds : ℕ)
      → IsExpire seconds
      → ((setex s now k (pos seconds) v).0 ≡ ok tt)
        × (r.entry (setex s now k (pos seconds) v).1 k ≡ some (entry_for now v seconds))
  -- Zero seconds are an error: "invalid expire time".
  pub setex_zero :
      (s : r.Store) (now : Time) (k v : String)
      → (m : String) × ((setex s now k (pos 0) v).0 ≡ err (foreign m))
  pub setex_ne :
      (s : r.Store) (now : Time) (k : String) (seconds : ℤ) (v j : String)
      → k ≢ j
      → r.entry (setex s now k seconds v).1 j ≡ r.entry s j
