-- ===== src/Auth/Quiet.antt =====
-- The parts of the service that change no table.
use medods_dvortsov.Prelude.{String, ℤ, arith}
use medods_dvortsov.Go.Errors.{Caught, returned, failed}
use medods_dvortsov.Models.{Time, RefreshSession, UserMetadata}
use medods_dvortsov.Platform.{Platform}
use medods_dvortsov.Program.{IpChange}
use medods_dvortsov.Program.Evolves.{Evolves, Quiet, quiet_rules}
use medods_dvortsov.Denylist.{invalidate_token, read_mark, is_token_invalidated}
use medods_dvortsov.Token.{
  TokenService, create_access_token, create_refresh_token, is_access_token_invalidated,
  parse_user_id, validate_access_token_and_get_user_id, invalidate_access_token,
}
use medods_dvortsov.Webhook.{notify_ip_change}
use medods_dvortsov.Auth.{authenticate_access_token, get_public_guid, notify_if_moved}
use medods_dvortsov.Storage.Quiet.{get_user_by_id-Quiet}

module _ (p : Platform) where
  read_mark-Quiet : (r : Caught String) → Evolves Quiet (read_mark p r)
  unfolding read_mark
  read_mark-Quiet (returned v) = search quiet_rules
  read_mark-Quiet (failed e) = search quiet_rules

  invalidate_token-Quiet : (token : String) (d : ℤ) → Evolves Quiet (invalidate_token p token d)
  unfolding invalidate_token
  invalidate_token-Quiet token d = search quiet_rules

  notify_ip_change-Quiet : (url : String) (c : IpChange) → Evolves Quiet (notify_ip_change p url c)
  unfolding notify_ip_change
  notify_ip_change-Quiet url c = record { at = λ w. ground arith }

module _ (p : Platform) (ts : TokenService) where
  pub create_access_token-Quiet :
      (id : ℤ) (now : Time) → Evolves Quiet (create_access_token p ts id now)
  unfolding create_access_token
  create_access_token-Quiet id now = search quiet_rules

  pub create_refresh_token-Quiet : Evolves Quiet (create_refresh_token p ts)
  unfolding create_refresh_token
  create_refresh_token-Quiet = search quiet_rules

  is_access_token_invalidated-Quiet :
      (token : String) → Evolves Quiet (is_access_token_invalidated p ts token)
  unfolding is_access_token_invalidated is_token_invalidated
  is_access_token_invalidated-Quiet token = search (quiet_rules, read_mark-Quiet)

  parse_user_id-Quiet : (token : String) → Evolves Quiet (parse_user_id p ts token)
  unfolding parse_user_id
  parse_user_id-Quiet token = search quiet_rules

  pub validate-Quiet :
      (token : String) → Evolves Quiet (validate_access_token_and_get_user_id p ts token)
  unfolding validate_access_token_and_get_user_id
  validate-Quiet token =
      search (quiet_rules, is_access_token_invalidated-Quiet, parse_user_id-Quiet)

  pub invalidate_access_token-Quiet :
      (token : String) → Evolves Quiet (invalidate_access_token p ts token)
  unfolding invalidate_access_token
  invalidate_access_token-Quiet token = search (quiet_rules, invalidate_token-Quiet) depth 8

module _ (p : Platform) (ts : TokenService) (webhook_url : String) where
  pub notify_if_moved-Quiet :
      (s : RefreshSession) (m : UserMetadata) → Evolves Quiet (notify_if_moved p ts webhook_url s m)
  unfolding notify_if_moved
  notify_if_moved-Quiet s m = search (quiet_rules, notify_ip_change-Quiet)

  pub get_public_guid-Quiet : (id : ℤ) → Evolves Quiet (get_public_guid p ts webhook_url id)
  unfolding get_public_guid
  get_public_guid-Quiet id = search (quiet_rules, get_user_by_id-Quiet)

  pub authenticate-Quiet :
      (token : String) → Evolves Quiet (authenticate_access_token p ts webhook_url token)
  unfolding authenticate_access_token
  authenticate-Quiet token = search (quiet_rules, validate-Quiet)
