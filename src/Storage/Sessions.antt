-- ===== src/Storage/Sessions.antt =====
-- internal/storage/postgres/session.go.
use Prim.Native.String.{◌++◌}
use medods_dvortsov.Prelude.{String, ℤ, if◌then◌else◌}
use medods_dvortsov.Go.Errors.{
  Caught, returned, failed, context, sentinel, no_rows, session_not_found, errors_is,
}
use medods_dvortsov.Models.{RefreshSession}
use medods_dvortsov.Platform.{Platform}
use medods_dvortsov.Program.{when◌then◌else◌, Action, pure, throw, wrap, attempt, ◌>>=◌}
use medods_dvortsov.Storage.Statements.{
  insert_session, select_active_session, select_session, update_session_used, delete_session_row,
  delete_user_sessions,
}
use medods_dvortsov.Storage.Users.{run_statement}

module _ (p : Platform) where
  unfoldable pub create_session : RefreshSession → Action p ℤ
  create_session s = wrap "failed to insert session" (run_statement p (insert_session s))

  -- No row is `ErrSessionNotFound`, wrapped; any other error is wrapped.
  unfoldable pub session_or_error : String → Caught RefreshSession → Action p RefreshSession
  session_or_error selector (returned s) = pure s
  session_or_error selector (failed e) =
      when errors_is e no_rows
      then throw (
          context ("session with selector " ++ selector ++ " not found")
            (sentinel session_not_found))
      else throw (context "failed to get session" e)

  unfoldable pub get_active_session_by_selector : String → Action p RefreshSession
  get_active_session_by_selector selector = do
    row ← attempt (run_statement p (select_active_session selector))
    session_or_error selector row

  unfoldable pub find_session_by_selector : String → Action p RefreshSession
  find_session_by_selector selector = do
    row ← attempt (run_statement p (select_session selector))
    session_or_error selector row

  unfoldable pub mark_session_as_used : String → Action p Unit
  mark_session_as_used selector =
      wrap "failed to mark session as used" (run_statement p (update_session_used selector))

  unfoldable pub delete_session : String → Action p Unit
  delete_session selector =
      wrap "failed to delete session" (run_statement p (delete_session_row selector))

  unfoldable pub delete_all_user_sessions : ℤ → Action p Unit
  delete_all_user_sessions user_id =
      wrap "delete user sessions" (run_statement p (delete_user_sessions user_id))
