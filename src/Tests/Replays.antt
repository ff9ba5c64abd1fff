-- ===== src/Tests/Replays.antt =====
-- A refresh request to the server on the sample platform, and the same token presented again.
use medods_dvortsov.Prelude.{◌≡◌, refl, none, [], pos, arith}
use medods_dvortsov.Go.Errors.{ok}
use medods_dvortsov.Go.Base64
use medods_dvortsov.Go.Hex
use medods_dvortsov.Go.Strings.{split, has_prefix, has_suffix, trim_prefix}
use medods_dvortsov.Go.Subtle.{constant_time_compare}
use medods_dvortsov.Go.Strconv.{format_int}
use medods_dvortsov.Program.{program, Worlds}
use medods_dvortsov.Program.Ends.{Ends, OnOk}
use medods_dvortsov.Token.{
  refresh_token_from, get_claims_from_token, validate_refresh_token, create_access_token,
  create_access_token_with_jti, create_refresh_token,
}
use medods_dvortsov.Auth.{
  refresh_tokens, notify_if_moved, rotate, refresh_active, refresh_found, refresh_parts,
}
use medods_dvortsov.Auth.Steps.{Generated}
use medods_dvortsov.Storage.Statements.{
  select_active_session, insert_session, select_user_by_id, update_session_used,
}
use medods_dvortsov.Storage.Users.{run_statement, get_user_by_id, user_or_error}
use medods_dvortsov.Storage.Sessions.{
  session_or_error, get_active_session_by_selector, create_session, mark_session_as_used,
}
use medods_dvortsov.Storage.Transactions.{
  finish, in_transaction, rotate_tokens_body, rotate_tokens_tx,
}
use medods_dvortsov.Webhook.{notify_ip_change}
use medods_dvortsov.Limiter.{rate_limiter, run_script, limiter_script, count, set_window, admission}
use medods_dvortsov.Api.{authenticator, authenticate_bearer}
use medods_dvortsov.Controller.{
  Response, with_tokens, handle_refresh_tokens, refresh_with_cookie, refreshed,
}
use medods_dvortsov.Server.{HttpCall, written, serve, replied, routed, secured, invoke}
use medods_dvortsov.Server.Revoked.{IsRefusal}
use medods_dvortsov.Process.Shutdown.{Process, Run, here, next, arrives, accept, answer, launched}
use medods_dvortsov.Process.Replay.{answered_once}
use medods_dvortsov.Tests.Sample.{sample, sample_tokens, replicate}
use medods_dvortsov.Tests.Service.{before, before-IsValid, two_parts_of_sample}
use medods_dvortsov.Tests.Requests.{request}
use medods_dvortsov.Tests.Serving.{sample_api}
use medods_dvortsov.Tests.Lifetimes.{generated_long}

abbrev refresh_request : HttpCall
refresh_request = record {
  verb = "POST";
  guid = none;
  request = record request { path = "/api/v1/auth/tokens/refresh" };
}

abbrev new_tokens : Response
new_tokens = with_tokens ("new-jti", (refresh_token_from sample sample_tokens (replicate 32 4)).0)

abbrev served : Worlds sample
served = (serve sample sample_api refresh_request before).1

is_refreshed : (serve sample sample_api refresh_request before).0 ≡ ok (written new_tokens)
unfolding program serve replied routed secured invoke handle_refresh_tokens refresh_with_cookie
    refreshed authenticator authenticate_bearer has_suffix has_prefix trim_prefix rate_limiter
    run_script limiter_script count set_window admission refresh_tokens refresh_parts refresh_found
    refresh_active notify_if_moved notify_ip_change get_claims_from_token
    get_active_session_by_selector session_or_error run_statement select_active_session rotate
    create_access_token create_access_token_with_jti create_refresh_token rotate_tokens_tx
    rotate_tokens_body in_transaction finish mark_session_as_used create_session get_user_by_id
    user_or_error update_session_used insert_session select_user_by_id validate_refresh_token
    refresh_token_from split Hex.encode Hex.decode constant_time_compare Base64.encode Base64.sextet
    format_int
is_refreshed = refl

not-Generated : Generated sample sample_tokens served "sel" → ⊥
not-Generated (n, raw, _, made, same) = generated_long n raw made same

abbrev answered_process : Process sample
answered_process = answer sample_api 1 [] refresh_request [] (launched before)

-- Another request comes in between.
abbrev later_process : Process sample
later_process = accept 2 refresh_request answered_process

another_comes : Run sample_api (pos 0) answered_process 1 later_process
unfolding accept answer
another_comes = next here (arrives 2 refresh_request (omega arith) refl)

answered_once_example :
    Ends
      (serve sample sample_api refresh_request)
      later_process.world
      (OnOk λ reply _. IsRefusal reply)
answered_once_example =
    answered_once sample_api "sel.ver" "sel" "ver" two_parts_of_sample (pos 0) 1 [] refresh_request
      refresh_request [] new_tokens (launched before) before-IsValid (refl, refl) (refl, refl)
      is_refreshed not-Generated another_comes
