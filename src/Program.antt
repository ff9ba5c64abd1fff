-- ===== src/Program.antt =====
-- A run of the program: what it reads and changes outside itself, and Go functions that return an
-- error as actions on that. What was written before an error stays written.
pub mod Changes
pub mod Evolves
pub mod Ends
pub mod Calls
use medods_dvortsov.Prelude.{ℕ, suc, String, List, Bool, if◌then◌else◌, ℤ}
use medods_dvortsov.Go.Errors.{
  GoError, Result, ok, err, panicked, Caught, returned, failed, wrap_result,
}
use medods_dvortsov.Models.{Time, RefreshSession, User}
use medods_dvortsov.Platform.{Platform}
use medods_dvortsov.Platform.Redis.{SetCommand}

-- The columns `status` of the table sessions; the statements write no other value.
pub data Status : Type 0 where
  active used : Status

pub record SessionRow : Type 0 where
  pub session : RefreshSession
  pub status : Status

-- The tables of internal/migrations/00001_initial_schema.sql, newest row first, and the last
-- values of the two BIGSERIAL sequences.
pub record Db : Type 0 where
  pub users : List User
  pub users_seq : ℕ
  pub sessions : List SessionRow
  pub sessions_seq : ℕ

-- The payload of a webhook notification.
pub record IpChange : Type 0 where
  pub user_id : ℤ
  pub old_ip : String
  pub new_ip : String
  pub user_agent : String

-- `events` counts the calls that leave the program; `notified` holds the payloads handed to
-- `NotifyIPChange`, newest first.
pub record World (S : Type 0) : Type 0 where
  pub events : ℕ
  pub db : Db
  pub store : S
  pub notified : List IpChange

abbrev pub Act : Type 0 → Type 0 → Type 0
Act S A = World S → Result A × World S

module _ {S A : Type 0} where
  unfoldable pub pure : A → Act S A
  pure a w = (ok a, w)

  unfoldable pub throw : GoError → Act S A
  throw e w = (err e, w)

  unfoldable pub lift : Result A → Act S A
  lift r w = (r, w)

  -- The call, with its error wrapped.
  unfoldable pub wrap : String → Act S A → Act S A
  wrap m f w = let (r, w') = f w in (wrap_result m r, w')

  -- The error as a value, for a caller that looks into it.
  unfoldable pub attempt : Act S A → Act S (Caught A)
  attempt f w =
      let (r, w') = f w in
      elim r [
        | ok a ↦ (ok (returned a), w')
        | err e ↦ (ok (failed e), w')
        | panicked ↦ (panicked, w')
      ]

infixl 5 ◌>>=◌ ◌>>◌
unfoldable pub ◌>>=◌ : {S A B : Type 0} → Act S A → (A → Act S B) → Act S B
◌>>=◌ m f w =
    let (r, w') = m w in elim r [ ok a ↦ f a w' | err e ↦ (err e, w') | panicked ↦ (panicked, w') ]

abbrev pub ◌>>◌ : {S B : Type 0} → Act S (Unit {0}) → Act S B → Act S B
m >> k = m >>= λ _. k

-- `if` between two actions.
infix 1 when◌then◌else◌
unfoldable pub when◌then◌else◌ : {S A : Type 0} → Bool → Act S A → Act S A → Act S A
when b then m else n = if b then m else n

module _ (p : Platform) where
  abbrev pub Action : Type 0 → Type 0
  Action A = Act p.redis.Store A

  abbrev pub Worlds : Type 0
  Worlds = World p.redis.Store

  -- `time.Now()`.
  unfoldable pub time_now : Action Time
  time_now w = (ok (p.host.clock w.events), record w { events = suc w.events })

  -- `uuid.NewString()`.
  unfoldable pub new_uuid : Action String
  new_uuid w = (ok (p.host.uuid w.events), record w { events = suc w.events })

  -- `rand.Read` of `n` bytes.
  unfoldable pub rand_read : ℕ → Action (List ℕ)
  rand_read n w = (p.host.random w.events n, record w { events = suc w.events })

  -- Calls of the Redis client, at the time of the event.
  unfoldable pub redis_get : String → Action String
  redis_get key w =
      let (r, s) = p.redis.get w.store (p.host.clock w.events) key in
      (r, record w { events = suc w.events; store = s })

  unfoldable pub redis_set : String → String → ℤ → Action Unit
  redis_set key value expiration w =
      let (r, s) = p.redis.set w.store (p.host.clock w.events) key value expiration in
      (r, record w { events = suc w.events; store = s })

  unfoldable pub redis_exec : List SetCommand → Action Unit
  redis_exec commands w =
      let (r, s) = p.redis.exec w.store (p.host.clock w.events) commands in
      (r, record w { events = suc w.events; store = s })

-- What a computation with actions opens.
unfoldable pub program : Unit {0}
unfolding pure throw lift wrap attempt ◌>>=◌ when◌then◌else◌ time_now new_uuid rand_read redis_get
    redis_set redis_exec
program = tt
