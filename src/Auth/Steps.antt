-- ===== src/Auth/Steps.antt =====
-- Each part of the service makes at most one move on the view of the sessions.
use medods_dvortsov.Prelude.{
  refl, ℕ, ◌≤◌, List, String, Bool, true, false, ◌≡◌, ap, arith, inl, inr, if◌then◌else◌,
}
use medods_dvortsov.Go.Errors.{GoError, Result, ok, err, panicked}
use medods_dvortsov.Platform.{Platform}
use medods_dvortsov.Program.{
  when◌then◌else◌, program, Db, Action, Worlds, wrap, attempt, ◌>>=◌, pure, throw,
}
use medods_dvortsov.Program.Ends.{any_value, Ends, OnOk, Held}
use medods_dvortsov.Program.Evolves.{Evolves, Quiet, continued}
use medods_dvortsov.Storage.Invariant.{IsValid}
use medods_dvortsov.Storage.Atomicity.{Atomic}
use medods_dvortsov.Token.{TokenService, raw_token_length, refresh_token_from}
use medods_dvortsov.Auth.Moves.{Change, Move}
use medods_dvortsov.Auth.View.{view, view_same}

module _ (p : Platform) (ts : TokenService) where
  -- The selectors of the refresh tokens that the random source can give from `w` on.
  abbrev pub Generated : Worlds p → String → Type 0
  Generated w selector =
      (n : ℕ) × (raw : List ℕ) × (w.events ≤ n)
      × (p.host.random n raw_token_length ≡ ok raw)
      × (selector ≡ (refresh_token_from p ts raw).1)

  pub Generated-mono :
      (w v : Worlds p) (s : String) → w.events ≤ v.events → Generated v s → Generated w s
  Generated-mono w v s h (n, raw, at, made, same) = (n, raw, omega arith, made, same)

module _ (p : Platform) (K : Change → Type 0) where
  -- From valid tables, one move at most.
  abbrev pub Moves : Worlds p → Worlds p → Type 0
  Moves w v = IsValid w.db → Move K (view w.db) (view v.db)

  Moves-Quiet : (w v : Worlds p) → Quiet w v → Moves w v
  Moves-Quiet w v (same, _) valid = view_same K w.db v.db (ap (λ (d : Db). d.sessions) same)

  Moves-after : (u v w : Worlds p) → Quiet u v → Moves v w → Moves u w
  Moves-after u v w (same, _) h valid =
      let move : Move K (view v.db) (view w.db) = h (rw (same) valid) in rw (← same) move

  Moves-before : (u v w : Worlds p) → Moves u v → Quiet v w → Moves u w
  Moves-before u v w h (same, _) valid = rw (same) (h valid)

  pub Moves-throw : (A : Type 0) (e : GoError) (w : Worlds p) → Moves w (throw {A = A} e w).1
  unfolding program
  Moves-throw A e w valid = view_same K w.db w.db refl

  pub Moves-pure : (A : Type 0) (a : A) (w : Worlds p) → Moves w (pure a w).1
  unfolding program
  Moves-pure A a w valid = view_same K w.db w.db refl

  module _ {A B : Type 0} where
    -- A quiet action, and then one that moves from what it has found.
    pub Moves-bind :
        (m : Action p A) (f : A → Action p B) (w : Worlds p) (I : A → Worlds p → Type 0)
        → Evolves Quiet m
        → Ends m w (OnOk I)
        → ((a : A) (v : Worlds p) → Quiet w v → I a v → Moves v (f a v).1)
        → Moves w ((m >>= f) w).1
    unfolding program
    Moves-bind m f w I quiet found moves =
        let (r, v) = m w in
        continued Quiet Moves Moves I r f w v (λ u. Moves-after w v u) (Moves-Quiet w v) found.post
          (λ a i. moves a v (quiet.at w) i) (quiet.at w)

    -- An action that moves, and then a quiet one.
    pub Moves-last :
        (m : Action p A) (f : A → Action p B) (w : Worlds p)
        → Moves w (m w).1
        → ((a : A) → Evolves Quiet (f a))
        → Moves w ((m >>= f) w).1
    unfolding program
    Moves-last m f w moves quiet =
        let (r, v) = m w in
        continued Moves Quiet Moves (λ a u. Unit) r f w v (λ u. Moves-before w v u) (λ h. h)
          (any_value m w).post (λ a _. (quiet a).at v) moves

  module _ {A : Type 0} where
    pub Moves-wrap :
        (m : String) (f : Action p A) (w : Worlds p) → Moves w (f w).1 → Moves w (wrap m f w).1
    unfolding program
    Moves-wrap m f w h = h

    tried :
        (r : Result A) (w v : Worlds p)
        → Moves w v
        → Moves w (attempt (λ (u : Worlds p). (r, v)) w).1
    unfolding program
    tried (ok a) w v h = h
    tried (err e) w v h = h
    tried panicked w v h = h

    pub Moves-attempt : (f : Action p A) (w : Worlds p) → Moves w (f w).1 → Moves w (attempt f w).1
    unfolding program
    Moves-attempt f w h = let (r, v) = f w in tried r w v h

    pub Moves-when :
        (b : Bool) (m n : Action p A) (w : Worlds p)
        → (b ≡ true → Moves w (m w).1)
        → (b ≡ false → Moves w (n w).1)
        → Moves w ((when b then m else n) w).1
    unfolding program
    Moves-when true m n w hm hn = hm refl
    Moves-when false m n w hm hn = hn refl

    pub Moves-same : (m : Action p A) (w : Worlds p) → Evolves Quiet m → Moves w (m w).1
    Moves-same m w h = Moves-Quiet w (m w).1 (h.at w)

    caught :
        (I : A → Worlds p → Type 0) (r : Result A) (w v : Worlds p)
        → OnOk I r v
        → OnOk
            (Held I)
            (attempt (λ (u : Worlds p). (r, v)) w).0
            (attempt (λ (u : Worlds p). (r, v)) w).1
    unfolding program
    caught I (ok a) w v h = h
    caught I (err e) w v h = tt
    caught I panicked w v h = tt

    pub Ends-caught :
        {I : A → Worlds p → Type 0} (m : Action p A) (w : Worlds p)
        → Ends m w (OnOk I)
        → Ends (attempt m) w (OnOk (Held I))
    unfolding program
    Ends-caught {I} m w h = record { post = caught I (m w).0 w (m w).1 h.post }

    transacted :
        (Q : A → Db → Type 0) (w : Worlds p) (r : Result A) (v : Worlds p)
        → ((a : A) (e : Db) → Q a e → Move K (view w.db) (view e))
        → Atomic Q w.db r v
        → Move K (view w.db) (view v.db)
    transacted Q w (ok a) v moves h = moves a v.db h
    transacted Q w (err e) v moves (inl (_, same)) = view_same K w.db v.db same
    transacted Q w (err e) v moves (inr (a, h)) = moves a v.db h
    transacted Q w panicked v moves (_, same) = view_same K w.db v.db same

    -- A transaction whose change is a move.
    pub Moves-Atomic :
        (Q : A → Db → Type 0) (m : Action p A) (w : Worlds p)
        → Ends m w (Atomic Q w.db)
        → ((a : A) (e : Db) → IsValid w.db → Q a e → Move K (view w.db) (view e))
        → Moves w (m w).1
    Moves-Atomic Q m w h moves valid =
        transacted Q w (m w).0 (m w).1 (λ a e. moves a e valid) h.post
