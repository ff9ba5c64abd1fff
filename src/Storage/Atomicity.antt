-- ===== src/Storage/Atomicity.antt =====
-- A transaction makes the whole change of its body, or none.
use medods_dvortsov.Prelude.{suc, ◌≡◌, refl, ◌⊎◌, inl, inr}
use medods_dvortsov.Go.Errors.{Result, ok, err, panicked}
use medods_dvortsov.Platform.{Platform}
use medods_dvortsov.Platform.Machine.{Reply-cases}
use medods_dvortsov.Program.{Db, World, Action, Worlds}
use medods_dvortsov.Program.Ends.{Ends, OnOk}
use medods_dvortsov.Storage.Transactions.{finish, in_transaction}

-- The tables are those of before; a sequence may have moved on.
abbrev pub SameTables : Db → Db → Type 0
SameTables d e = (e.users ≡ d.users) × (e.sessions ≡ d.sessions)

-- A value comes with the change `Q`. An error comes with no change, or, where the answer to COMMIT
-- was lost, with the whole change; a panic comes with no change.
abbrev pub Atomic : {S A : Type 0} → (A → Db → Type 0) → Db → Result A → World S → Type 0
Atomic Q d (ok a) w = Q a w.db
Atomic {A = A} Q d (err e) w = SameTables d w.db ⊎ ((a : A) × Q a w.db)
Atomic Q d panicked w = SameTables d w.db

module _ (p : Platform) where
  finish-Atomic :
      {A : Type 0} (Q : A → Db → Type 0) (d : Db) (r : Result A) (w : Worlds p)
      → OnOk (λ a w'. Q a w'.db) r w
      → Atomic Q d (finish p d r w).0 (finish p d r w).1
  unfolding finish
  finish-Atomic Q d (err e) w h = inl (refl, refl)
  finish-Atomic Q d panicked w h = (refl, refl)
  finish-Atomic Q d (ok a) w h = elim (Reply-cases (p.host.reply w.events)) [
    | inl (inl e) ↦ rw (e, finish) h
    | inl (inr (m, e)) ↦ rw (e, finish) (inl (refl, refl))
    | inr (m, e) ↦ rw (e, finish) (inr (a, h))
  ]

  -- A transaction whose body makes the change `Q` makes it as a whole, or not at all.
  pub in_transaction-Atomic :
      {A : Type 0} (Q : A → Db → Type 0) (body : Action p A) (w : Worlds p)
      → ((v : Worlds p) → v.db ≡ w.db → Ends body v (OnOk λ a w'. Q a w'.db))
      → Ends (in_transaction p body) w (Atomic Q w.db)
  unfolding in_transaction
  in_transaction-Atomic Q body w h = record {
    post = elim (Reply-cases (p.host.reply w.events)) [
      | inl (inl e) ↦
          let v : Worlds p = record w { events = suc w.events } in
          rw (e, in_transaction) (finish-Atomic Q w.db (body v).0 (body v).1 (h v refl).post)
      | inl (inr (m, e)) ↦ rw (e, in_transaction) (inl (refl, refl))
      | inr (m, e) ↦ rw (e, in_transaction) (inl (refl, refl))
    ];
  }
