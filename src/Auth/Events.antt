-- ===== src/Auth/Events.antt =====
-- Every operation of the service goes on in the sequence of calls.
use medods_dvortsov.Prelude.{◌≤◌, String, Option, none, some}
use medods_dvortsov.Go.Errors.{Caught, returned, failed}
use medods_dvortsov.Models.{RefreshSession, UserMetadata}
use medods_dvortsov.Platform.{Platform}
use medods_dvortsov.Program.{Worlds}
use medods_dvortsov.Program.Evolves.{
  Evolves, Later, Later-Quiet, later_rules, time_now-Quiet, new_uuid-Quiet,
}
use medods_dvortsov.Storage.Quiet.{
  get_active_session_by_selector-Quiet, find_session_by_selector-Quiet,
}
use medods_dvortsov.Storage.Events.{
  delete_all_user_sessions-Later, issue_tokens_tx-Later, rotate_tokens_tx-Later,
}
use medods_dvortsov.Token.{TokenService}
use medods_dvortsov.Auth.{
  Request, issue_call, refresh_call, logout_call, public_guid_call, authenticate_call, handle,
  issue_tokens, revoke_stolen, detect_theft_and_revoke, rotate, refresh_active, refresh_found,
  refresh_parts, refresh_tokens, logout,
}
use medods_dvortsov.Auth.Quiet.{
  create_access_token-Quiet, create_refresh_token-Quiet, notify_if_moved-Quiet, validate-Quiet,
  invalidate_access_token-Quiet, get_public_guid-Quiet, authenticate-Quiet,
}

ruleset calls = (
  later_rules, Later-Quiet, time_now-Quiet, new_uuid-Quiet, get_active_session_by_selector-Quiet,
  find_session_by_selector-Quiet, create_access_token-Quiet, create_refresh_token-Quiet,
  notify_if_moved-Quiet, validate-Quiet, invalidate_access_token-Quiet,
  delete_all_user_sessions-Later, issue_tokens_tx-Later, rotate_tokens_tx-Later,
)

module _ (p : Platform) (ts : TokenService) (webhook_url : String) where
  rotate-Later :
      (selector : String) (s : RefreshSession) (m : UserMetadata)
      → Evolves Later (rotate p ts webhook_url selector s m)
  unfolding rotate
  rotate-Later selector s m = search calls depth 14

  refresh_active-Later :
      (jti selector token : String) (m : UserMetadata) (s : RefreshSession)
      → Evolves Later (refresh_active p ts webhook_url jti selector token m s)
  unfolding refresh_active
  refresh_active-Later jti selector token m s = search (calls, rotate-Later) depth 14

  revoke_stolen-Later :
      (A : Type 0) (r : Caught RefreshSession)
      → Evolves Later (revoke_stolen p ts webhook_url {A = A} r)
  unfolding revoke_stolen
  revoke_stolen-Later A (failed e) = search calls
  revoke_stolen-Later A (returned s) = search calls

  detect_theft_and_revoke-Later :
      (A : Type 0) (selector : String)
      → Evolves Later (detect_theft_and_revoke p ts webhook_url {A = A} selector)
  unfolding detect_theft_and_revoke
  detect_theft_and_revoke-Later A selector = search (calls, revoke_stolen-Later)

  refresh_found-Later :
      (jti selector token : String) (m : UserMetadata) (r : Caught RefreshSession)
      → Evolves Later (refresh_found p ts webhook_url jti selector token m r)
  unfolding refresh_found
  refresh_found-Later jti selector token m (returned s) =
      refresh_active-Later jti selector token m s
  refresh_found-Later jti selector token m (failed e) =
      search (calls, detect_theft_and_revoke-Later)

  refresh_parts-Later :
      (jti : String) (parts : Option (String × String)) (token : String) (m : UserMetadata)
      → Evolves Later (refresh_parts p ts webhook_url jti parts token m)
  unfolding refresh_parts
  refresh_parts-Later jti none token m = search calls
  refresh_parts-Later jti (some (selector, v)) token m = search (calls, refresh_found-Later)

  pub issue_tokens-Later :
      (guid : String) (m : UserMetadata) → Evolves Later (issue_tokens p ts webhook_url guid m)
  unfolding issue_tokens
  issue_tokens-Later guid m = search calls depth 14

  pub refresh_tokens-Later :
      (access refresh : String) (m : UserMetadata)
      → Evolves Later (refresh_tokens p ts webhook_url access refresh m)
  unfolding refresh_tokens
  refresh_tokens-Later access refresh m = search (calls, refresh_parts-Later)

  pub logout-Later : (access : String) → Evolves Later (logout p ts webhook_url access)
  unfolding logout
  logout-Later access = search calls depth 10

  pub handle-Later : (r : Request) (w : Worlds p) → w.events ≤ (handle p ts webhook_url r w).events
  unfolding handle
  handle-Later (issue_call guid m) w = (issue_tokens-Later guid m).at w
  handle-Later (refresh_call a t m) w = (refresh_tokens-Later a t m).at w
  handle-Later (logout_call a) w = (logout-Later a).at w
  handle-Later (public_guid_call id) w = ((get_public_guid-Quiet p ts webhook_url id).at w).1
  handle-Later (authenticate_call a) w = ((authenticate-Quiet p ts webhook_url a).at w).1
