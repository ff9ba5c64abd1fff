-- ===== src/Auth/Invariant.antt =====
-- Every operation of the service keeps the tables valid, whatever the services answer.
use medods_dvortsov.Prelude.{List, [], ◌∷◌, String, Option, none, some}
use medods_dvortsov.Go.Errors.{Caught, returned, failed}
use medods_dvortsov.Models.{RefreshSession, UserMetadata}
use medods_dvortsov.Platform.{Platform}
use medods_dvortsov.Program.{Act, Worlds}
use medods_dvortsov.Program.Evolves.{Evolves, Quiet}
use medods_dvortsov.Auth.Quiet.{
  create_access_token-Quiet, create_refresh_token-Quiet, notify_if_moved-Quiet, validate-Quiet,
  invalidate_access_token-Quiet, get_public_guid-Quiet, authenticate-Quiet,
}
use medods_dvortsov.Program.Changes.{Changes}
use medods_dvortsov.Storage.Invariant.{IsValid, Preserves, Preserves-refl}
use medods_dvortsov.Storage.Preservation.{
  preserving, get_active_session_by_selector-Changes, find_session_by_selector-Changes,
  delete_all_user_sessions-Changes, issue_tokens_tx-Changes, rotate_tokens_tx-Changes,
}
use medods_dvortsov.Token.{TokenService}
use medods_dvortsov.Auth.{
  Request, issue_call, refresh_call, logout_call, public_guid_call, authenticate_call, handle, run,
  issue_tokens, revoke_stolen, detect_theft_and_revoke, rotate, refresh_active, refresh_found,
  refresh_parts, refresh_tokens, logout,
}

-- An action that changes no table keeps them valid.
pub unchanged : {S A : Type 0} (m : Act S A) → Evolves Quiet m → Changes Preserves m
unchanged m h = record { at = λ w. rw ((h.at w).0) (Preserves-refl w.db) }

ruleset keeping = (
  preserving, unchanged, create_access_token-Quiet, create_refresh_token-Quiet,
  notify_if_moved-Quiet, validate-Quiet, invalidate_access_token-Quiet,
)

module _ (p : Platform) (ts : TokenService) (webhook_url : String) where
  rotate-Changes :
      (selector : String) (s : RefreshSession) (m : UserMetadata)
      → Changes Preserves (rotate p ts webhook_url selector s m)
  unfolding rotate
  rotate-Changes selector s m = search (keeping, rotate_tokens_tx-Changes) depth 12

  refresh_active-Changes :
      (jti selector token : String) (m : UserMetadata) (s : RefreshSession)
      → Changes Preserves (refresh_active p ts webhook_url jti selector token m s)
  unfolding refresh_active
  refresh_active-Changes jti selector token m s =
      search (keeping, delete_all_user_sessions-Changes, rotate-Changes) depth 12

  revoke_stolen-Changes :
      {A : Type 0} (r : Caught RefreshSession)
      → Changes Preserves (revoke_stolen p ts webhook_url {A = A} r)
  unfolding revoke_stolen
  revoke_stolen-Changes (failed e) = search keeping
  revoke_stolen-Changes (returned s) = search (keeping, delete_all_user_sessions-Changes)

  detect_theft_and_revoke-Changes :
      {A : Type 0} (selector : String)
      → Changes Preserves (detect_theft_and_revoke p ts webhook_url {A = A} selector)
  unfolding detect_theft_and_revoke
  detect_theft_and_revoke-Changes selector =
      search (keeping, find_session_by_selector-Changes, revoke_stolen-Changes)

  refresh_found-Changes :
      (jti selector token : String) (m : UserMetadata) (r : Caught RefreshSession)
      → Changes Preserves (refresh_found p ts webhook_url jti selector token m r)
  unfolding refresh_found
  refresh_found-Changes jti selector token m (returned s) =
      refresh_active-Changes jti selector token m s
  refresh_found-Changes jti selector token m (failed e) =
      search (keeping, detect_theft_and_revoke-Changes)

  refresh_parts-Changes :
      (jti : String) (parts : Option (String × String)) (token : String) (m : UserMetadata)
      → Changes Preserves (refresh_parts p ts webhook_url jti parts token m)
  unfolding refresh_parts
  refresh_parts-Changes jti none token m = search keeping
  refresh_parts-Changes jti (some (selector, v)) token m =
      search (keeping, get_active_session_by_selector-Changes, refresh_found-Changes)

  pub issue_tokens-Changes :
      (guid : String) (m : UserMetadata) → Changes Preserves (issue_tokens p ts webhook_url guid m)
  unfolding issue_tokens
  issue_tokens-Changes guid m = search (keeping, issue_tokens_tx-Changes) depth 14

  pub refresh_tokens-Changes :
      (access refresh : String) (m : UserMetadata)
      → Changes Preserves (refresh_tokens p ts webhook_url access refresh m)
  unfolding refresh_tokens
  refresh_tokens-Changes access refresh m = search (keeping, refresh_parts-Changes)

  pub logout-Changes : (access : String) → Changes Preserves (logout p ts webhook_url access)
  unfolding logout
  logout-Changes access = search (keeping, delete_all_user_sessions-Changes) depth 8

  -- Each operation takes valid tables to valid tables, whether it returns, fails or panics.
  pub handle-IsValid :
      (r : Request) (w : Worlds p) → IsValid w.db → IsValid (handle p ts webhook_url r w).db
  unfolding handle
  handle-IsValid (issue_call guid m) w v = ((issue_tokens-Changes guid m).at w).valid v
  handle-IsValid (refresh_call a t m) w v = ((refresh_tokens-Changes a t m).at w).valid v
  handle-IsValid (logout_call a) w v = ((logout-Changes a).at w).valid v
  handle-IsValid (public_guid_call id) w v =
      ((unchanged _ (get_public_guid-Quiet p ts webhook_url id)).at w).valid v
  handle-IsValid (authenticate_call a) w v =
      ((unchanged _ (authenticate-Quiet p ts webhook_url a)).at w).valid v

  -- From valid tables, every sequence of operations ends in valid tables.
  pub run-IsValid :
      (rs : List Request) (w : Worlds p) → IsValid w.db → IsValid (run p ts webhook_url rs w).db
  unfolding run
  run-IsValid [] w v = v
  run-IsValid (r ∷ rs) w v = run-IsValid rs (handle p ts webhook_url r w) (handle-IsValid r w v)
