-- ===== src/Storage/Transactions.antt =====
-- internal/storage/postgres/storage.go.
use medods_dvortsov.Prelude.{suc, String, ℤ, if◌then◌else◌}
use medods_dvortsov.Go.Errors.{
  Result, ok, err, panicked, Caught, returned, failed, context, foreign, user_not_found, errors_is,
}
use medods_dvortsov.Models.{RefreshSession, User}
use medods_dvortsov.Platform.{Platform}
use medods_dvortsov.Platform.Machine.{answered, refused, lost}
use medods_dvortsov.Program.{
  when◌then◌else◌, Db, Action, Worlds, pure, throw, wrap, attempt, ◌>>=◌, ◌>>◌,
}
use medods_dvortsov.Storage.Users.{create_user, get_user_by_guid, get_user_by_id}
use medods_dvortsov.Storage.Sessions.{create_session, mark_session_as_used}

-- The tables of the transaction's begin; a sequence is never set back.
abbrev pub roll_back : Db → Db → Db
roll_back before now = record now { users = before.users; sessions = before.sessions }

module _ (p : Platform) where
  -- The end of a transaction that began on the tables `before`: COMMIT after a body that returned a
  -- value, and the deferred ROLLBACK after an error of the body or of COMMIT.
  unfoldable pub finish : {A : Type 0} → Db → Result A → Worlds p → Result A × Worlds p
  finish before (err e) w = (err e, record w { events = suc w.events; db = roll_back before w.db })
  finish before panicked w =
      (panicked, record w { events = suc w.events; db = roll_back before w.db })
  finish before (ok a) w = elim (p.host.reply w.events) [
    | answered ↦ (ok a, record w { events = suc w.events })
    | refused m ↦ (
      err (context "commit transaction" (foreign m)),
      record w { events = suc w.events; db = roll_back before w.db },
    )
    | lost m ↦ (err (context "commit transaction" (foreign m)), record w { events = suc w.events })
  ]

  -- BeginTx, the body, and the end.
  unfoldable pub in_transaction : {A : Type 0} → Action p A → Action p A
  in_transaction body w = elim (p.host.reply w.events) [
    | answered ↦ let (r, w') = body (record w { events = suc w.events }) in finish w.db r w'
    | refused m ↦
        (err (context "begin transaction" (foreign m)), record w { events = suc w.events })
    | lost m ↦ (err (context "begin transaction" (foreign m)), record w { events = suc w.events })
  ]

  -- A user that is not found is created.
  unfoldable pub found_or_created : String → Caught User → Action p User
  found_or_created guid (returned u) = pure u
  found_or_created guid (failed e) =
      when errors_is e user_not_found
      then wrap "failed to create user in tx" (create_user p guid)
      else throw (context "failed to get user by guid in tx" e)

  unfoldable pub issue_tokens_body : String → RefreshSession → Action p User
  issue_tokens_body guid session = do
    found ← attempt (get_user_by_guid p guid)
    user ← found_or_created guid found
    _ ←
        wrap "failed to create session in tx"
          (create_session p (record session { user_id = user.id }))
    pure user

  unfoldable pub issue_tokens_tx : String → RefreshSession → Action p User
  issue_tokens_tx guid session = in_transaction (issue_tokens_body guid session)

  unfoldable pub rotate_tokens_body : String → RefreshSession → ℤ → Action p User
  rotate_tokens_body old_selector new_session user_id = do
    wrap "failed to mark session as used in tx" (mark_session_as_used p old_selector)
    _ ←
        wrap "failed to create new session in tx"
          (create_session p (record new_session { user_id = user_id }))
    wrap "failed to get user by id in tx" (get_user_by_id p user_id)

  unfoldable pub rotate_tokens_tx : String → RefreshSession → ℤ → Action p User
  rotate_tokens_tx old_selector new_session user_id =
      in_transaction (rotate_tokens_body old_selector new_session user_id)
