-- ===== src/Platform/Redis.antt =====
-- The Redis server behind the go-redis client. Its state is abstract and is observed through
-- `entry`: what a key holds, and until when. An operation takes the time at which it runs.
use medods_dvortsov.Prelude.{
  ℕ, zero, suc, ◌+◌, String, ◌≡◌, ◌≢◌, ◌⊎◌, Option, none, some, List, [], ◌∷◌, ℤ, pos, ltb, ◌==◌,
  if◌then◌else◌,
}
use medods_dvortsov.Go.Errors.{Result, ok, err, sentinel, foreign, redis_nil}
use medods_dvortsov.Models.{Time}

pub record Entry : Type 0 where
  pub value : String
  pub deadline : Option Time

-- What GET finds: nothing once the deadline has come.
abbrev pub live : Time → Option Entry → Option String
live now none = none
live now (some e) = elim e.deadline [
  | none ↦ some e.value
  | some t ↦ if ltb now t then some e.value else none
]

-- The client's answer to a GET: `redis.Nil` for a key that is not there.
abbrev pub answer : Option String → Result String
answer none = err (sentinel redis_nil)
answer (some v) = ok v

-- The deadline of a SET with an expiration of zero (none) or more.
abbrev pub expiry : Time → ℕ → Option Time
expiry now zero = none
expiry now (suc d) = some (now + suc d)

-- A SET queued on a pipeline: the key, the value and the expiration.
pub record SetCommand : Type 0 where
  pub key : String
  pub value : String
  pub expiration : ℕ

abbrev pub put : Time → String → String → ℕ → (String → Option Entry) → String → Option Entry
put now k v d f j = if k == j then some (record { value = v; deadline = expiry now d }) else f j

-- The keys after the queued commands, in their order.
abbrev pub put_all : Time → List SetCommand → (String → Option Entry) → String → Option Entry
put_all now [] f = f
put_all now (c ∷ cs) f = put_all now cs (put now c.key c.value c.expiration f)

pub record RedisClient : Type 1 where
  pub Store : Type 0
  pub entry : Store → String → Option Entry
  pub get : Store → Time → String → Result String × Store
  pub set : Store → Time → String → String → ℤ → Result (Unit {0}) × Store
  pub exec : Store → Time → List SetCommand → Result (Unit {0}) × Store
  -- A GET changes no key, and answers by what the key holds, unless the call fails.
  pub entry-get : (s : Store) (now : Time) (k : String) → entry (get s now k).1 ≡ entry s
  pub get-answer :
      (s : Store) (now : Time) (k : String)
      → ((get s now k).0 ≡ answer (live now (entry s k)))
        ⊎ ((m : String) × ((get s now k).0 ≡ err (foreign m)))
  -- A SET that is answered has written its key, and no other.
  pub entry-set :
      (s : Store) (now : Time) (k v : String) (d : ℕ) (j : String)
      → (set s now k v (pos d)).0 ≡ ok tt
      → entry (set s now k v (pos d)).1 j ≡ put now k v d (entry s) j
  -- No SET writes another key than its own.
  pub entry-set_ne :
      (s : Store) (now : Time) (k v : String) (d : ℤ) (j : String)
      → k ≢ j
      → entry (set s now k v d).1 j ≡ entry s j
  -- A pipeline that is answered has run its commands in order.
  pub entry-exec :
      (s : Store) (now : Time) (cs : List SetCommand) (j : String)
      → (exec s now cs).0 ≡ ok tt
      → entry (exec s now cs).1 j ≡ put_all now cs (entry s) j
