-- ===== src/Storage/Users.antt =====
-- internal/storage/postgres/user.go. A statement is run on the tables as the server answers it; a
-- repository over a transaction runs the same statements within it.
use medods_dvortsov.Prelude.{suc, String, ℤ, if◌then◌else◌}
use medods_dvortsov.Go.Errors.{
  Result, err, Caught, returned, failed, context, sentinel, foreign, no_rows, user_not_found,
  errors_is,
}
use medods_dvortsov.Models.{User}
use medods_dvortsov.Platform.{Platform}
use medods_dvortsov.Platform.Machine.{answered, refused, lost}
use medods_dvortsov.Program.{when◌then◌else◌, Db, Action, pure, throw, wrap, attempt, ◌>>=◌}
use medods_dvortsov.Storage.Statements.{insert_user, select_user_by_guid, select_user_by_id}

module _ (p : Platform) where
  -- `DBTX`: one statement, through database/sql.
  unfoldable pub run_statement : {A : Type 0} → (Db → Result A × Db) → Action p A
  run_statement op w = elim (p.host.reply w.events) [
    | answered ↦ let (r, db') = op w.db in (r, record w { events = suc w.events; db = db' })
    | refused m ↦ (err (foreign m), record w { events = suc w.events })
    | lost m ↦ (err (foreign m), record w { events = suc w.events; db = (op w.db).1 })
  ]

  unfoldable pub create_user : String → Action p User
  create_user guid = wrap "failed to create user" (run_statement (insert_user p.host.is_uuid guid))

  -- No row is `ErrUserNotFound`; any other error is wrapped.
  unfoldable pub user_or_error : String → Caught User → Action p User
  user_or_error m (returned u) = pure u
  user_or_error m (failed e) =
      when errors_is e no_rows then throw (sentinel user_not_found) else throw (context m e)

  unfoldable pub get_user_by_guid : String → Action p User
  get_user_by_guid guid = do
    row ← attempt (run_statement (select_user_by_guid p.host.is_uuid guid))
    user_or_error "failed to get user by guid" row

  unfoldable pub get_user_by_id : ℤ → Action p User
  get_user_by_id id = do
    row ← attempt (run_statement (select_user_by_id id))
    user_or_error "get user by id" row
