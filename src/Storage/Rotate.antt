-- ===== src/Storage/Rotate.antt =====
-- What RotateTokensTx does to the tables.
use medods_dvortsov.Prelude.{any, false, ◌≡◌, String, ℤ, some, ◌∷◌, map, arith, find}
use medods_dvortsov.Go.Errors.{Result, ok, err, panicked}
use medods_dvortsov.Models.{RefreshSession, User}
use medods_dvortsov.Platform.{Platform}
use medods_dvortsov.Program.{Worlds}
use medods_dvortsov.Program.Ends.{Ends, OnOk, Ends-wrap_ok, Ends-weaken, Ends-then}
use medods_dvortsov.Storage.Statements.{has_selector, has_id, mark_row}
use medods_dvortsov.Storage.Transactions.{rotate_tokens_body, rotate_tokens_tx}
use medods_dvortsov.Storage.Effects.{
  stored, Rotated, mark_session_as_used-Ends, get_user_by_id-Ends, create_session-Ends,
}
use medods_dvortsov.Storage.Atomicity.{Atomic, in_transaction-Atomic}

module _ (p : Platform) where
  found :
      (selector : String) (s : RefreshSession) (user_id : ℤ) (w w₁ w₂ : Worlds p) (r : Result User)
      (w₃ : Worlds p)
      → (w₁.db.users ≡ w.db.users)
        × (w₁.db.sessions ≡ map (mark_row selector) w.db.sessions)
        × (w₁.db.sessions_seq ≡ w.db.sessions_seq)
      → (w₂.db.users ≡ w₁.db.users)
        × (any (has_selector s.selector) w₁.db.sessions ≡ false)
        × (w₂.db.sessions ≡ stored w₁.db.sessions_seq user_id s ∷ w₁.db.sessions)
      → (w₃.db ≡ w₂.db) × OnOk (λ u v. find (has_id user_id) w₂.db.users ≡ some u) r w₃
      → OnOk (λ u v. Rotated selector s user_id w.db v.db u) r w₃
  found selector s user_id w w₁ w₂ (ok u) w₃ a b c = ground arith
  found selector s user_id w w₁ w₂ (err e) w₃ a b c = tt
  found selector s user_id w w₁ w₂ panicked w₃ a b c = tt

  rotate_tokens_body-Ends :
      (selector : String) (s : RefreshSession) (user_id : ℤ) (w : Worlds p)
      → Ends
          (rotate_tokens_body p selector s user_id)
          w
          (OnOk λ u w'. Rotated selector s user_id w.db w'.db u)
  unfolding rotate_tokens_body
  rotate_tokens_body-Ends selector s user_id w =
      Ends-then _ _ (Ends-wrap_ok _ _ (mark_session_as_used-Ends p selector w)) λ _ w₁ marked.
        Ends-then _ _ (Ends-wrap_ok _ _ (create_session-Ends p (record s { user_id = user_id }) w₁))
          λ n w₂ made. Ends-wrap_ok _ _ (
            Ends-weaken (get_user_by_id-Ends p user_id w₂)
              λ r w₃ h. found selector s user_id w w₁ w₂ r w₃ marked made h)

  -- RotateTokensTx is atomic, whatever the database answers. When it returns a user, that is the one
  -- with the identifier, every session of the old selector is marked as used, and one active session
  -- is added, with a selector that no session had. After an error the tables are as before, or, where
  -- the answer to COMMIT was lost, changed in just that way; after a panic they are as before.
  pub rotate_tokens_tx-Atomic :
      (selector : String) (s : RefreshSession) (user_id : ℤ) (w : Worlds p)
      → Ends
          (rotate_tokens_tx p selector s user_id)
          w
          (Atomic (λ u e. Rotated selector s user_id w.db e u) w.db)
  unfolding rotate_tokens_tx
  rotate_tokens_tx-Atomic selector s user_id w =
      in_transaction-Atomic p (λ u e. Rotated selector s user_id w.db e u)
        (rotate_tokens_body p selector s user_id) w
        (λ v same. rw (← same) (rotate_tokens_body-Ends selector s user_id v))
