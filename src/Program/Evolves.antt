-- ===== src/Program/Evolves.antt =====
-- How an action may change the world, as a relation between the one before it and the one after it:
-- one rule for each way to build an action. Where the relation is not transitive, an action may still
-- come after or before one that is quiet.
use medods_dvortsov.Prelude.{
  List, Bool, true, false, String, ℕ, ℤ, if◌then◌else◌, ◌≡◌, refl, ◌∙◌, ◌≤◌, arith,
}
use medods_dvortsov.Go.Errors.{GoError, Result, ok, err, panicked}
use medods_dvortsov.Platform.{Platform}
use medods_dvortsov.Platform.Redis.{SetCommand}
use medods_dvortsov.Program.{
  when◌then◌else◌, program, World, Act, pure, throw, lift, wrap, attempt, ◌>>=◌, time_now, new_uuid,
  rand_read, redis_get, redis_set, redis_exec,
}
use medods_dvortsov.Program.Ends.{any_value, OnOk}

pub record Evolves {S A : Type 0} (R : World S → World S → Type 0) (m : Act S A) : Type 0 where
  pub at : (w : World S) → R w (m w).1

-- The tables are the same, and no call is taken back.
abbrev pub Quiet : {S : Type 0} → World S → World S → Type 0
Quiet w v = (v.db ≡ w.db) × (w.events ≤ v.events)

pub Quiet-refl : {S : Type 0} (w : World S) → Quiet w w
Quiet-refl w = (refl, omega arith)

pub Quiet-trans : {S : Type 0} (u v w : World S) → Quiet u v → Quiet v w → Quiet u w
Quiet-trans u v w (a, b) (c, d) = (c ∙ a, omega arith)

-- No call is taken back.
abbrev pub Later : {S : Type 0} → World S → World S → Type 0
Later w v = w.events ≤ v.events

pub Later-refl : {S : Type 0} (w : World S) → Later w w
Later-refl w = omega arith

pub Later-trans : {S : Type 0} (u v w : World S) → Later u v → Later v w → Later u w
Later-trans u v w h k = omega arith

pub Later-Quiet : {S A : Type 0} (m : Act S A) → Evolves Quiet m → Evolves Later m
Later-Quiet m h = record { at = λ w. (h.at w).1 }

module _ {S A : Type 0} {R : World S → World S → Type 0} (R_refl : (w : World S) → R w w) where
  pub Evolves-pure : (a : A) → Evolves R (pure a)
  unfolding program
  Evolves-pure a = record { at = R_refl }

  pub Evolves-throw : (e : GoError) → Evolves R (throw {A = A} e)
  unfolding program
  Evolves-throw e = record { at = R_refl }

  pub Evolves-lift : (r : Result A) → Evolves R (lift r)
  unfolding program
  Evolves-lift r = record { at = R_refl }

module _ {S A : Type 0} (R : World S → World S → Type 0) where
  caught : (r : Result A) (w v : World S) → R w v → R w (attempt (λ (u : World S). (r, v)) w).1
  unfolding program
  caught (ok a) w v h = h
  caught (err e) w v h = h
  caught panicked w v h = h

module _ {S A : Type 0} {R : World S → World S → Type 0} where
  pub Evolves-wrap : (m : String) (f : Act S A) → Evolves R f → Evolves R (wrap m f)
  unfolding program
  Evolves-wrap m f h = record { at = h.at }

  pub Evolves-attempt : (f : Act S A) → Evolves R f → Evolves R (attempt f)
  unfolding program
  Evolves-attempt f h = record { at = λ w. let (r, v) = f w in caught R r w v (h.at w) }

  pub Evolves-when :
      (b : Bool) (m n : Act S A) → Evolves R m → Evolves R n → Evolves R (when b then m else n)
  unfolding program
  Evolves-when true m n hm hn = hm
  Evolves-when false m n hm hn = hn

-- A chain: `P` and then `Q` make `R`, and `P` alone does where there is no value to go on with. What
-- is known of the value, `I`, may be used.
module _ {S A B : Type 0} (P Q R : World S → World S → Type 0) where
  pub continued :
      (I : A → World S → Type 0) (r : Result A) (f : A → Act S B) (w v : World S)
      → ((u : World S) → P w v → Q v u → R w u)
      → (P w v → R w v)
      → OnOk I r v
      → ((a : A) → I a v → Q v (f a v).1)
      → P w v
      → R w (((λ (u : World S). (r, v)) >>= f) w).1
  unfolding program
  continued I (ok a) f w v join alone i k h = join _ h (k a i)
  continued I (err e) f w v join alone i k h = alone h
  continued I panicked f w v join alone i k h = alone h

module _ {S A B : Type 0} {P Q R : World S → World S → Type 0} where
  pub Evolves-chain :
      (join : (u v w : World S) → P u v → Q v w → R u w) (alone : (u v : World S) → P u v → R u v)
      (m : Act S A) (f : A → Act S B)
      → Evolves P m
      → ((a : A) → Evolves Q (f a))
      → Evolves R (m >>= f)
  unfolding program
  Evolves-chain join alone m f hm hf = record {
    at = λ w.
        let (r, v) = m w in
        continued P Q R (λ a u. Unit) r f w v (λ u. join w v u) (alone w v) (any_value m w).post
          (λ a _. (hf a).at v) (hm.at w);
  }

module _ {S A B : Type 0} {R : World S → World S → Type 0}
    (R_trans : (u v w : World S) → R u v → R v w → R u w) where
  pub Evolves-bind :
      (m : Act S A) (f : A → Act S B)
      → Evolves R m
      → ((a : A) → Evolves R (f a))
      → Evolves R (m >>= f)
  Evolves-bind m f hm hf = Evolves-chain R_trans (λ u v h. h) m f hm hf

module _ (p : Platform) where
  pub time_now-Quiet : Evolves Quiet (time_now p)
  unfolding program
  time_now-Quiet = record { at = λ w. (refl, omega arith) }

  pub new_uuid-Quiet : Evolves Quiet (new_uuid p)
  unfolding program
  new_uuid-Quiet = record { at = λ w. (refl, omega arith) }

  pub rand_read-Quiet : (n : ℕ) → Evolves Quiet (rand_read p n)
  unfolding program
  rand_read-Quiet n = record { at = λ w. (refl, omega arith) }

  pub redis_get-Quiet : (k : String) → Evolves Quiet (redis_get p k)
  unfolding program
  redis_get-Quiet k = record { at = λ w. (refl, omega arith) }

  pub redis_set-Quiet : (k v : String) (d : ℤ) → Evolves Quiet (redis_set p k v d)
  unfolding program
  redis_set-Quiet k v d = record { at = λ w. (refl, omega arith) }

  pub redis_exec-Quiet : (commands : List SetCommand) → Evolves Quiet (redis_exec p commands)
  unfolding program
  redis_exec-Quiet commands = record { at = λ w. (refl, omega arith) }

-- For actions that are quiet throughout.
pub ruleset quiet_rules = (
  Quiet-refl, Quiet-trans, Evolves-pure, Evolves-throw, Evolves-lift, Evolves-wrap, Evolves-attempt,
  Evolves-when, Evolves-bind, time_now-Quiet, new_uuid-Quiet, rand_read-Quiet, redis_get-Quiet,
  redis_set-Quiet, redis_exec-Quiet,
)

-- For what only has to go on in time.
pub ruleset later_rules = (
  Later-refl, Later-trans, Evolves-pure, Evolves-throw, Evolves-lift, Evolves-wrap, Evolves-attempt,
  Evolves-when, Evolves-bind,
)
