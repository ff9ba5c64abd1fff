-- ===== src/Program/Changes.antt =====
-- How an action may change the tables, as a relation between those before it and after it: one rule
-- for each way to build an action. The relation is reflexive and transitive.
use medods_dvortsov.Prelude.{Bool, true, false, String, ℕ, ℤ, List, if◌then◌else◌}
use medods_dvortsov.Go.Errors.{GoError, Result, ok, err, panicked}
use medods_dvortsov.Platform.{Platform}
use medods_dvortsov.Platform.Redis.{SetCommand}
use medods_dvortsov.Program.{
  when◌then◌else◌, program, Db, World, Act, pure, throw, lift, wrap, attempt, ◌>>=◌, time_now,
  new_uuid, rand_read, redis_get, redis_set, redis_exec,
}

-- Whether it returns, fails or panics, the action changes the tables as `R` says.
pub record Changes {S A : Type 0} (R : Db → Db → Type 0) (m : Act S A) : Type 0 where
  pub at : (w : World S) → R w.db (m w).1.db

module _ {S A : Type 0} {R : Db → Db → Type 0} (R_refl : (d : Db) → R d d) where
  pub Changes-pure : (a : A) → Changes R (pure {S = S} a)
  unfolding program
  Changes-pure a = record { at = λ w. R_refl w.db }

  pub Changes-throw : (e : GoError) → Changes R (throw {S = S} {A = A} e)
  unfolding program
  Changes-throw e = record { at = λ w. R_refl w.db }

  pub Changes-lift : (r : Result A) → Changes R (lift {S = S} r)
  unfolding program
  Changes-lift r = record { at = λ w. R_refl w.db }

module _ {S A : Type 0} (R : Db → Db → Type 0) where
  caught :
      (r : Result A) (w : World S) (d : Db)
      → R d w.db
      → R d (attempt (λ (v : World S). (r, w)) w).1.db
  unfolding program
  caught (ok a) w d h = h
  caught (err e) w d h = h
  caught panicked w d h = h

module _ {S A : Type 0} {R : Db → Db → Type 0} where
  pub Changes-wrap : (m : String) (f : Act S A) → Changes R f → Changes R (wrap m f)
  unfolding program
  Changes-wrap m f h = record { at = h.at }

  pub Changes-attempt : (f : Act S A) → Changes R f → Changes R (attempt f)
  unfolding program
  Changes-attempt f h = record { at = λ w. let (r, w') = f w in caught R r w' w.db (h.at w) }

  pub Changes-when :
      (b : Bool) (m n : Act S A) → Changes R m → Changes R n → Changes R (when b then m else n)
  unfolding program
  Changes-when true m n hm hn = hm
  Changes-when false m n hm hn = hn

module _ {S A B : Type 0} {R : Db → Db → Type 0}
    (R_trans : (d e f : Db) → R d e → R e f → R d f) where
  continued :
      (r : Result A) (f : A → Act S B) (w : World S) (d : Db)
      → ((a : A) → Changes R (f a))
      → R d w.db
      → R d (((λ (v : World S). (r, w)) >>= f) w).1.db
  unfolding program
  continued (ok a) f w d hf h = R_trans d w.db _ h ((hf a).at w)
  continued (err e) f w d hf h = h
  continued panicked f w d hf h = h

  pub Changes-bind :
      (m : Act S A) (f : A → Act S B)
      → Changes R m
      → ((a : A) → Changes R (f a))
      → Changes R (m >>= f)
  unfolding program
  Changes-bind m f hm hf = record {
    at = λ w. let (r, w') = m w in continued r f w' w.db hf (hm.at w);
  }

module _ (p : Platform) {R : Db → Db → Type 0} (R_refl : (d : Db) → R d d) where
  pub Changes-time_now : Changes R (time_now p)
  unfolding program
  Changes-time_now = record { at = λ w. R_refl w.db }

  pub Changes-new_uuid : Changes R (new_uuid p)
  unfolding program
  Changes-new_uuid = record { at = λ w. R_refl w.db }

  pub Changes-rand_read : (n : ℕ) → Changes R (rand_read p n)
  unfolding program
  Changes-rand_read n = record { at = λ w. R_refl w.db }

  pub Changes-redis_get : (k : String) → Changes R (redis_get p k)
  unfolding program
  Changes-redis_get k = record { at = λ w. R_refl w.db }

  pub Changes-redis_set : (k v : String) (d : ℤ) → Changes R (redis_set p k v d)
  unfolding program
  Changes-redis_set k v d = record { at = λ w. R_refl w.db }

  pub Changes-redis_exec : (cs : List SetCommand) → Changes R (redis_exec p cs)
  unfolding program
  Changes-redis_exec cs = record { at = λ w. R_refl w.db }

pub ruleset change_rules = (
  Changes-pure, Changes-throw, Changes-lift, Changes-wrap, Changes-attempt, Changes-when,
  Changes-bind, Changes-time_now, Changes-new_uuid, Changes-rand_read, Changes-redis_get,
  Changes-redis_set, Changes-redis_exec,
)
