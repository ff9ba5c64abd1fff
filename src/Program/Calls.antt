-- ===== src/Program/Calls.antt =====
-- What the calls out of the program return, and what they leave alone.
use medods_dvortsov.Prelude.{ℕ, suc, ◌≡◌, refl, String, ℤ, List}
use medods_dvortsov.Go.Errors.{Result, ok, err, panicked}
use medods_dvortsov.Platform.{Platform}
use medods_dvortsov.Program.{program, World, Worlds, lift, time_now, new_uuid, rand_read, redis_set}
use medods_dvortsov.Program.Ends.{Ends, OnOk}

-- A later event; the rest is as it was.
abbrev pub step : {S : Type 0} → World S → World S
step w = record w { events = suc w.events }

module _ {S A : Type 0} where
  lifted : (r s : Result A) (w : World S) → r ≡ s → OnOk (λ a v. (r ≡ ok a) × (v ≡ w)) s w
  lifted r (ok a) w h = (h, refl)
  lifted r (err e) w h = tt
  lifted r panicked w h = tt

  pub lift-Ends : (r : Result A) (w : World S) → Ends (lift r) w (OnOk λ a v. (r ≡ ok a) × (v ≡ w))
  unfolding program
  lift-Ends r w = record { post = lifted r r w refl }

module _ (p : Platform) where
  pub time_now-Ends :
      (w : Worlds p) → Ends (time_now p) w (OnOk λ t v. (t ≡ p.host.clock w.events) × (v ≡ step w))
  unfolding program
  time_now-Ends w = record { post = (refl, refl) }

  pub new_uuid-Ends :
      (w : Worlds p) → Ends (new_uuid p) w (OnOk λ t v. (t ≡ p.host.uuid w.events) × (v ≡ step w))
  unfolding program
  new_uuid-Ends w = record { post = (refl, refl) }

  random :
      (n : ℕ) (r : Result (List ℕ)) (w : Worlds p)
      → p.host.random w.events n ≡ r
      → OnOk (λ raw v. (p.host.random w.events n ≡ ok raw) × (v ≡ step w)) r (step w)
  random n (ok a) w h = (h, refl)
  random n (err e) w h = tt
  random n panicked w h = tt

  pub rand_read-Ends :
      (n : ℕ) (w : Worlds p)
      → Ends (rand_read p n) w (OnOk λ raw v. (p.host.random w.events n ≡ ok raw) × (v ≡ step w))
  unfolding program
  rand_read-Ends n w = record { post = random n (p.host.random w.events n) w refl }

  redis_set-db :
      (k v : String) (d : ℤ) (w : Worlds p) → Ends (redis_set p k v d) w (λ r w'. w'.db ≡ w.db)
  unfolding program
  redis_set-db k v d w = record { post = refl }
