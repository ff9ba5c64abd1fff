-- ===== src/Program/Ends.antt =====
-- What holds of the result and the state at the end of an action: one rule for each way to build an
-- action.
use medods_dvortsov.Prelude.{◌≡◌, refl, ap, Bool, true, false, if◌then◌else◌, String}
use medods_dvortsov.Go.Errors.{
  GoError, Result, ok, err, panicked, Caught, returned, failed, wrap_result,
}
use medods_dvortsov.Program.{
  when◌then◌else◌, program, World, Act, pure, throw, lift, wrap, attempt, ◌>>=◌,
}

pub record Ends {S A : Type 0} (m : Act S A) (w : World S) (Q : Result A → World S → Type 0)
    : Type 0 where
  pub post : Q (m w).0 (m w).1

-- A value and the state satisfy `Q`; of an error nothing is said.
abbrev pub OnOk : {S A : Type 0} → (A → World S → Type 0) → Result A → World S → Type 0
OnOk Q (ok a) w = Q a w
OnOk Q (err e) w = Unit
OnOk Q panicked w = Unit

-- Of a caught value, `Q`.
abbrev pub Held : {S A : Type 0} → (A → World S → Type 0) → Caught A → World S → Type 0
Held Q (returned a) w = Q a w
Held Q (failed e) w = Unit

module _ {S A : Type 0} {Q : Result A → World S → Type 0} where
  pub Ends-pure : (a : A) {w : World S} → Q (ok a) w → Ends (pure a) w Q
  unfolding program
  Ends-pure a h = record { post = h }

  pub Ends-throw : (e : GoError) {w : World S} → Q (err e) w → Ends (throw e) w Q
  unfolding program
  Ends-throw e h = record { post = h }

  pub Ends-lift : (r : Result A) {w : World S} → Q r w → Ends (lift r) w Q
  unfolding program
  Ends-lift r h = record { post = h }

  pub Ends-wrap :
      (m : String) (f : Act S A) {w : World S}
      → Ends f w (λ r w'. Q (wrap_result m r) w')
      → Ends (wrap m f) w Q
  unfolding program
  Ends-wrap m f h = record { post = h.post }

  pub Ends-when :
      (b : Bool) (m n : Act S A) {w : World S}
      → (b ≡ true → Ends m w Q)
      → (b ≡ false → Ends n w Q)
      → Ends (when b then m else n) w Q
  unfolding program
  Ends-when true m n hm hn = hm refl
  Ends-when false m n hm hn = hn refl

  pub Ends-weaken :
      {m : Act S A} {w : World S} {P : Result A → World S → Type 0}
      → Ends m w P
      → ((r : Result A) (w' : World S) → P r w' → Q r w')
      → Ends m w Q
  Ends-weaken {m} {w} h k = record { post = k (m w).0 (m w).1 h.post }

module _ {S A B : Type 0} {P : Result B → World S → Type 0} where
  continued :
      (Q : Result A → World S → Type 0) (r : Result A) (f : A → Act S B) (w : World S)
      → Q r w
      → ((a : A) (w' : World S) → Q (ok a) w' → Ends (f a) w' P)
      → ((e : GoError) (w' : World S) → Q (err e) w' → P (err e) w')
      → ((w' : World S) → Q panicked w' → P panicked w')
      → P ((lift r >>= f) w).0 ((lift r >>= f) w).1
  unfolding program
  continued Q (ok a) f w h k e x = (k a w h).post
  continued Q (err g) f w h k e x = e g w h
  continued Q panicked f w h k e x = x w h

  pub Ends-bind :
      {Q : Result A → World S → Type 0} (m : Act S A) (f : A → Act S B) {w : World S}
      → Ends m w Q
      → ((a : A) (w' : World S) → Q (ok a) w' → Ends (f a) w' P)
      → ((e : GoError) (w' : World S) → Q (err e) w' → P (err e) w')
      → ((w' : World S) → Q panicked w' → P panicked w')
      → Ends (m >>= f) w P
  unfolding program
  Ends-bind {Q} m f {w} h k e x = record { post = continued Q (m w).0 f (m w).1 h.post k e x }

-- `attempt` returns what its action ends with, unless that panics.
module _ {S A B : Type 0} {P : Result B → World S → Type 0} where
  attempted :
      (Q : Result A → World S → Type 0) (r : Result A) (f : Caught A → Act S B) (w : World S)
      → Q r w
      → ((a : A) (w' : World S) → Q (ok a) w' → Ends (f (returned a)) w' P)
      → ((e : GoError) (w' : World S) → Q (err e) w' → Ends (f (failed e)) w' P)
      → ((w' : World S) → Q panicked w' → P panicked w')
      → P ((attempt (lift r) >>= f) w).0 ((attempt (lift r) >>= f) w).1
  unfolding program
  attempted Q (ok a) f w h k e x = (k a w h).post
  attempted Q (err g) f w h k e x = (e g w h).post
  attempted Q panicked f w h k e x = x w h

  pub Ends-attempt :
      {Q : Result A → World S → Type 0} (m : Act S A) (f : Caught A → Act S B) {w : World S}
      → Ends m w Q
      → ((a : A) (w' : World S) → Q (ok a) w' → Ends (f (returned a)) w' P)
      → ((e : GoError) (w' : World S) → Q (err e) w' → Ends (f (failed e)) w' P)
      → ((w' : World S) → Q panicked w' → P panicked w')
      → Ends (attempt m >>= f) w P
  unfolding program
  Ends-attempt {Q} m f {w} h k e x = record { post = attempted Q (m w).0 f (m w).1 h.post k e x }

-- The rules where only a value matters.
module _ {S A : Type 0} (Q : A → World S → Type 0) where
  wrapped : (m : String) (r : Result A) (w : World S) → OnOk Q r w → OnOk Q (wrap_result m r) w
  wrapped m (ok a) w h = h
  wrapped m (err e) w h = tt
  wrapped m panicked w h = tt

module _ {S A : Type 0} {Q : A → World S → Type 0} where
  pub Ends-wrap_ok :
      (m : String) (f : Act S A) {w : World S} → Ends f w (OnOk Q) → Ends (wrap m f) w (OnOk Q)
  Ends-wrap_ok m f {w} h = Ends-wrap m f (Ends-weaken h (wrapped Q m))

  widened :
      {P : A → World S → Type 0} (r : Result A) (w : World S)
      → ((a : A) (v : World S) → P a v → Q a v)
      → OnOk P r w
      → OnOk Q r w
  widened (ok a) w k h = k a w h
  widened (err e) w k h = tt
  widened panicked w k h = tt

  pub Ends-weaken_ok :
      {m : Act S A} {w : World S} {P : A → World S → Type 0}
      → Ends m w (OnOk P)
      → ((a : A) (v : World S) → P a v → Q a v)
      → Ends m w (OnOk Q)
  Ends-weaken_ok {P} h k = Ends-weaken h (λ r w'. widened {P = P} r w' k)

module _ {S A B : Type 0} {Q : A → World S → Type 0} {P : B → World S → Type 0} where
  pub Ends-then :
      (m : Act S A) (f : A → Act S B) {w : World S}
      → Ends m w (OnOk Q)
      → ((a : A) (w' : World S) → Q a w' → Ends (f a) w' (OnOk P))
      → Ends (m >>= f) w (OnOk P)
  Ends-then m f h k = Ends-bind m f h k (λ e w' _. tt) (λ w' _. tt)

-- The value's part of a statement about a result.
module _ {S A : Type 0} where
  ok_part :
      (R : Result A → World S → Type 0) (r : Result A) (w : World S)
      → R r w
      → OnOk (λ a v. R (ok a) v) r w
  ok_part R (ok a) w h = h
  ok_part R (err e) w h = tt
  ok_part R panicked w h = tt

  pub Ends-ok :
      {m : Act S A} {w : World S} {R : Result A → World S → Type 0}
      → Ends m w R
      → Ends m w (OnOk λ a v. R (ok a) v)
  Ends-ok {R} h = Ends-weaken h (ok_part R)

  -- What holds of a value that an action is known to return.
  pub value_of :
      {m : Act S A} {w : World S} {Q : A → World S → Type 0} {a : A}
      → Ends m w (OnOk Q)
      → (m w).0 ≡ ok a
      → Q a (m w).1
  value_of {m} {w} {Q} h e = rw (← ap (λ (r : Result A). OnOk Q r (m w).1) e) h.post

  ran :
      (Q : A → World S → Type 0) (r s : Result A) (w : World S)
      → r ≡ s
      → OnOk Q s w
      → OnOk (λ a v. Q a v × (r ≡ ok a)) s w
  ran Q r (ok a) w e h = (h, e)
  ran Q r (err e) w _ h = tt
  ran Q r panicked w _ h = tt

  -- The value that an action returns, with what holds of it.
  pub Ends-value :
      {m : Act S A} {w : World S} {Q : A → World S → Type 0}
      → Ends m w (OnOk Q)
      → Ends m w (OnOk λ a v. Q a v × ((m w).0 ≡ ok a))
  Ends-value {m} {w} {Q} h = record { post = ran Q (m w).0 (m w).0 (m w).1 refl h.post }

  -- Two runs that end the same.
  pub Ends-same :
      {m n : Act S A} {w v : World S} {Q : Result A → World S → Type 0}
      → m w ≡ n v
      → Ends n v Q
      → Ends m w Q
  Ends-same {Q} same h = record { post = rw same h.post }

-- Nothing is said of the value.
any_end : {S A : Type 0} (r : Result A) (v : World S) → OnOk (λ a u. Unit {0}) r v
any_end (ok a) v = tt
any_end (err e) v = tt
any_end panicked v = tt

pub any_value : {S A : Type 0} (m : Act S A) (w : World S) → Ends m w (OnOk λ a v. Unit {0})
any_value m w = record { post = any_end (m w).0 (m w).1 }
